-- ===== src/Relay/Copy.antt =====
-- A poll of one direction of the relay.
use server_naive_rs.Common.{
  ℕ, zero, suc, ◌<◌, ◌≡◌, refl, ◌∙◌, arith, Bool, true, false, List, Option, none, some,
  if◌then◌else◌,
}
use server_naive_rs.Stream.{
  AsyncRead, AsyncWrite, IsReader, IsWriter, IoResult, ok, err, Poll, pending, ready,
}
use server_naive_rs.Relay.{Copying, goes_on, returns, Pass, copy_pass, copy_loop, poll_copy}
use server_naive_rs.Relay.Invariant.{Carried, Sent, IsKept, Kept}
use server_naive_rs.Relay.Round.{budget, Ended, PassGood, copy_pass-PassGood}

module _ {R W : Type 0} (r : AsyncRead R) (incoming : R → List ℕ) (hr : IsReader r incoming)
    (w : AsyncWrite W) (outgoing : W → List ℕ) (hw : IsWriter w outgoing) (before all : List ℕ)
    (seen : R → List ℕ) (heard : W → List ℕ) (k : IsKept r w seen heard) where
  -- What a poll of the direction leaves. An error is the only way to lose sight of the reader.
  abbrev pub CopyGood : Copying R W → Option (Poll (IoResult (Unit {0})) × Copying R W) → Type 0
  CopyGood c none = ⊥
  CopyGood c (some (pending, c')) = Carried r incoming outgoing before all c' × Kept seen heard c c'
  CopyGood c (some (ready (ok u), c')) =
      Carried r incoming outgoing before all c' × Kept seen heard c c' × Ended c'
  CopyGood c (some (ready (err e), c')) = Sent outgoing before all c' × Kept seen heard c c'

  CopyGood-from :
      (c d : Copying R W) (o : Option (Poll (IoResult (Unit {0})) × Copying R W))
      → Kept seen heard c d
      → CopyGood d o
      → CopyGood c o
  CopyGood-from c d none h g = g
  CopyGood-from c d (some (pending, x)) h g = (g.0, (g.1.0 ∙ h.0, g.1.1 ∙ h.1))
  CopyGood-from c d (some (ready (ok u), x)) h g = (g.0, (g.1.0 ∙ h.0, g.1.1 ∙ h.1), g.2)
  CopyGood-from c d (some (ready (err y), x)) h g = (g.0, (g.1.0 ∙ h.0, g.1.1 ∙ h.1))

  copy_loop-CopyGood :
      (fuel : ℕ) (c : Copying R W)
      → Carried r incoming outgoing before all c
      → budget incoming c < fuel
      → CopyGood c (copy_loop r w fuel c)
  unfolding copy_loop
  copy_loop-CopyGood zero c g lt = omega arith
  copy_loop-CopyGood (suc fuel) c g lt =
      copied (copy_pass r w c)
        (copy_pass-PassGood r incoming hr w outgoing hw before all seen heard k c g)
        (λ x. copy_loop-CopyGood fuel x)
    where
      copied :
          (o : Option (Pass R W))
          → PassGood r incoming hr w outgoing hw before all seen heard k c o
          → ((x : Copying R W)
              → Carried r incoming outgoing before all x
              → budget incoming x < fuel
              → CopyGood x (copy_loop r w fuel x))
          → CopyGood c (elim o [
            | none ↦ none
            | some (returns p, c') ↦ some (p, c')
            | some (goes_on, c') ↦ copy_loop r w fuel c'
          ])
      copied none h again = h
      copied (some (returns pending, x)) h again = h
      copied (some (returns (ready (ok u)), x)) h again = h
      copied (some (returns (ready (err e)), x)) h again = h
      copied (some (goes_on, x)) h again =
          CopyGood-from c x (copy_loop r w fuel x) h.1 (again x h.0 (omega (arith, h.2)))

  pub poll_copy-CopyGood :
      (fuel : ℕ) (c : Copying R W)
      → Carried r incoming outgoing before all c
      → budget incoming c < fuel
      → CopyGood c (poll_copy r w fuel c)
  unfolding poll_copy
  poll_copy-CopyGood fuel c g lt = go c.st.shutdown_done refl
    where
      go :
          (b : Bool)
          → c.st.shutdown_done ≡ b
          → CopyGood c (if b then some (ready (ok tt), c) else copy_loop r w fuel c)
      go true d = (g, (refl, refl), (d, (g.closed d).0, (g.closed d).1))
      go false d = copy_loop-CopyGood fuel c g lt
