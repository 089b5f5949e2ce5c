-- ===== src/Uot/Relaying/Invariant.antt =====
-- What the two loops of UDP over TCP keep.
use server_naive_rs.Common.{
  ℕ, ◌≡◌, refl, sym, ap, ◌∙◌, subst, Bool, true, false, not, ◌&&◌, ◌||◌, List, [], ◌∷◌, ◌++◌,
  length, take, Option, none, some, append-nil, append_assoc, length-append,
}
use server_naive_rs.Address.{SocketAddr}
use server_naive_rs.Dns.{DnsCache}
use server_naive_rs.Uot.{Text, got, fails, Read, read_packet, write_uot_packet}
use server_naive_rs.Uot.Relaying.{
  UotRelay, Sending, sends, send_fails, Writing, writes_all, fails_behind, UotEvent, kick,
  input_reads, input_cancelled, output_receives, output_fails, output_cancelled, input_ended,
  output_ended, input_read, output_received, when, relay_step,
}

abbrev pub Packet : Type 0
Packet = SocketAddr × List ℕ

-- The datagrams that an event brings from the network.
abbrev pub received : UotEvent → List Packet
received kick = []
received (input_reads a) = []
received input_cancelled = []
received (output_receives from bytes w) = (from, bytes) ∷ []
received output_fails = []
received output_cancelled = []

abbrev pub all_received : List UotEvent → List Packet
all_received [] = []
all_received (e ∷ events) = received e ++ all_received events

-- The wire form of packets.
unfoldable pub packed : Bool → List Packet → List ℕ
packed is_connect [] = []
packed is_connect ((from, bytes) ∷ packets) =
    write_uot_packet from bytes is_connect ++ packed is_connect packets

abbrev pub sizes : List Packet → List ℕ
sizes [] = []
sizes ((from, bytes) ∷ packets) = length bytes ∷ sizes packets

packed-append :
    (c : Bool) (packets : List Packet) (from : SocketAddr) (bytes : List ℕ)
    → packed c (packets ++ ((from, bytes) ∷ [])) ≡ packed c packets ++ write_uot_packet from bytes c
unfolding packed
packed-append c [] from bytes = append-nil (write_uot_packet from bytes c)
packed-append c ((f, b) ∷ packets) from bytes =
    ap (◌++◌ (write_uot_packet f b c)) (packed-append c packets from bytes)
    ∙ sym (append_assoc (write_uot_packet f b c) (packed c packets) (write_uot_packet from bytes c))

sizes-append :
    (packets : List Packet) (from : SocketAddr) (bytes : List ℕ)
    → sizes (packets ++ ((from, bytes) ∷ [])) ≡ sizes packets ++ (length bytes ∷ [])
sizes-append [] from bytes = refl
sizes-append ((f, b) ∷ packets) from bytes = ap (◌∷◌ (length b)) (sizes-append packets from bytes)

-- Of the datagrams that came in, those passed on; `cut` is what was written of one whose write failed.
pub record Passed (is_connect : Bool) (came : List Packet) (s : UotRelay) : Type 0 where
  pub packets : List Packet
  pub lost : List Packet
  pub cut : List ℕ
  pub whole : packets ++ lost ≡ came
  pub wire : s.written ≡ packed is_connect packets ++ cut
  pub counted : s.downloads ≡ sizes packets
  pub still_open : s.output_open ≡ true → (lost ≡ []) × (cut ≡ [])
  pub shuts : s.shut ≡ not s.output_open
  pub told : (s.input_open && s.output_open) ≡ false → s.inner ≡ true
  pub uploaded : length s.uploads ≡ length s.sent

abbrev pub PassedAfter : Bool → List Packet → Option UotRelay → Type 0
PassedAfter is_connect came none = Unit {0}
PassedAfter is_connect came (some s) = Passed is_connect came s

module _ (c : Bool) (came : List Packet) (s : UotRelay) (v : Passed c came s) where
  -- Where only the input and the tokens change.
  input_only :
      (t : UotRelay)
      → t.written ≡ s.written
      → t.downloads ≡ s.downloads
      → t.output_open ≡ s.output_open
      → t.shut ≡ s.shut
      → ((t.input_open && t.output_open) ≡ false → t.inner ≡ true)
      → length t.uploads ≡ length t.sent
      → Passed c came t
  input_only t w d o h told u = record {
    packets = v.packets;
    lost = v.lost;
    cut = v.cut;
    whole = v.whole;
    wire = w ∙ v.wire;
    counted = d ∙ v.counted;
    still_open = λ x. v.still_open (sym o ∙ x);
    shuts = h ∙ v.shuts ∙ ap not (sym o);
    told = told;
    uploaded = u;
  }

  input_ended-Passed : Passed c came (input_ended s)
  unfolding input_ended
  input_ended-Passed =
      input_only (record s { input_open = false; inner = true }) refl refl refl refl (λ _. refl)
        v.uploaded

  input_read-Passed :
      (a : Sending) (r : Read (Option (Option SocketAddr × List ℕ)))
      → Passed c came (input_read s a r)
  unfolding input_read input_ended
  input_read-Passed a (fails e) = input_ended-Passed
  input_read-Passed a (got (none, rest)) =
      input_only (record s { left = rest }) refl refl refl refl v.told v.uploaded
  input_read-Passed (sends n) (got (some d, rest)) =
      input_only
        (record s { left = rest; sent = s.sent ++ (d ∷ []); uploads = s.uploads ++ (n ∷ []) }) refl
        refl refl refl v.told
        (rw (length-append s.uploads (n ∷ []), length-append s.sent (d ∷ []), v.uploaded) refl)
  input_read-Passed send_fails (got (some d, rest)) =
      input_only (record s { left = rest; input_open = false; inner = true }) refl refl refl refl
        (λ _. refl) v.uploaded

  output_ended-Passed : s.output_open ≡ true → Passed c came (output_ended s)
  unfolding output_ended
  output_ended-Passed o = record {
    packets = v.packets;
    lost = v.lost;
    cut = v.cut;
    whole = v.whole;
    wire = v.wire;
    counted = v.counted;
    still_open = λ x. cc;
    shuts = refl;
    told = λ _. refl;
    uploaded = v.uploaded;
  }

  output_received-Passed :
      (from : SocketAddr) (bytes : List ℕ) (w : Writing)
      → s.output_open ≡ true
      → Passed c (came ++ ((from, bytes) ∷ [])) (output_received s c from bytes w)
  unfolding output_received
  output_received-Passed from bytes writes_all o = record {
    packets = v.packets ++ ((from, bytes) ∷ []);
    lost = [];
    cut = [];
    whole =
        append-nil (v.packets ++ ((from, bytes) ∷ []))
        ∙ ap (λ xs. xs ++ ((from, bytes) ∷ [])) all_passed;
    wire =
        ap (λ xs. xs ++ write_uot_packet from bytes c) wire_whole
        ∙ sym (packed-append c v.packets from bytes)
        ∙ sym (append-nil (packed c (v.packets ++ ((from, bytes) ∷ []))));
    counted =
        ap (λ xs. xs ++ (length bytes ∷ [])) v.counted ∙ sym (sizes-append v.packets from bytes);
    still_open = λ _. (refl, refl);
    shuts = v.shuts;
    told = v.told;
    uploaded = v.uploaded;
  }
    where
      all_passed : v.packets ≡ came
      all_passed =
          sym (append-nil v.packets) ∙ ap (◌++◌ v.packets) (sym (v.still_open o).0) ∙ v.whole

      wire_whole : s.written ≡ packed c v.packets
      wire_whole =
          v.wire
          ∙ ap (◌++◌ (packed c v.packets)) (v.still_open o).1
          ∙ append-nil (packed c v.packets)
  output_received-Passed from bytes (fails_behind n) o = record {
    packets = v.packets;
    lost = (from, bytes) ∷ [];
    cut = take n (write_uot_packet from bytes c);
    whole = ap (λ xs. xs ++ ((from, bytes) ∷ [])) all_passed;
    wire = ap (λ xs. xs ++ take n (write_uot_packet from bytes c)) wire_whole;
    counted = v.counted;
    still_open = λ x. cc;
    shuts = refl;
    told = λ _. refl;
    uploaded = v.uploaded;
  }
    where
      all_passed : v.packets ≡ came
      all_passed =
          sym (append-nil v.packets) ∙ ap (◌++◌ v.packets) (sym (v.still_open o).0) ∙ v.whole

      wire_whole : s.written ≡ packed c v.packets
      wire_whole =
          v.wire
          ∙ ap (◌++◌ (packed c v.packets)) (v.still_open o).1
          ∙ append-nil (packed c v.packets)

  pub quiet : (o : Option UotRelay) → PassedAfter c came o → PassedAfter c (came ++ []) o
  quiet o h = subst (λ xs. PassedAfter c xs o) (sym (append-nil came)) h

  when-Passed :
      (all : List Packet) (b : Bool) (t : UotRelay)
      → (b ≡ true → Passed c all t)
      → PassedAfter c all (when b t)
  when-Passed all true t h = h refl
  when-Passed all false t h = tt

  and_left : (x y : Bool) → (x && y) ≡ true → x ≡ true
  and_left true y e = refl
  and_left false y e = cc

  pub relay_step-Passed :
      (text : Text) (cache : DnsCache) (e : UotEvent)
      → PassedAfter c (came ++ received e) (relay_step text cache c s e)
  unfolding relay_step
  relay_step-Passed text cache kick =
      quiet (some (record s { cancel = true }))
        (input_only (record s { cancel = true }) refl refl refl refl v.told v.uploaded)
  relay_step-Passed text cache (input_reads a) =
      quiet _ (
        when-Passed came s.input_open _
          (λ _. input_read-Passed a (read_packet text cache c s.left)))
  relay_step-Passed text cache input_cancelled =
      quiet _ (when-Passed came (s.input_open && (s.cancel || s.inner)) _ (λ _. input_ended-Passed))
  relay_step-Passed text cache (output_receives from bytes w) =
      when-Passed (came ++ ((from, bytes) ∷ [])) s.output_open _
        (output_received-Passed from bytes w)
  relay_step-Passed text cache output_fails =
      quiet _ (when-Passed came s.output_open _ output_ended-Passed)
  relay_step-Passed text cache output_cancelled = quiet _ (
      when-Passed came (s.output_open && (s.cancel || s.inner)) _
        (λ x. output_ended-Passed (and_left s.output_open _ x)))
