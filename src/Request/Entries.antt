-- ===== src/Request/Entries.antt =====
-- The two entry points of handler.rs beside each other.
use server_naive_rs.Common.{ℕ, ◌≡◌, refl, Bool, true, false, List, [], ◌∷◌, Option, none, some}
use server_naive_rs.Address.{Address}
use server_naive_rs.Address.Authority.{Parsing}
use server_naive_rs.Router.{OutboundType}
use server_naive_rs.Auth.{Decoding}
use server_naive_rs.Request.{Decision, answered, dropped, opened}
use server_naive_rs.Request.Answers.{Outcome, digits, carried}
use server_naive_rs.Request.H2.{
  H2Frame, response, Pingora, RequestHeader, send_pingora_status, h2_respond, h2_entry, h2_view,
  h2_entry_lem,
}
use server_naive_rs.Request.H3.{
  H3Frame, headers, body, send_status, h3_respond, h3_entry, h3_view, h3_entry_lem,
}

-- pingora builds and writes every response header.
pub record Responds (h : Pingora) : Type 0 where
  pub builds : (status : ℕ) → h.builds status ≡ true
  pub appends : (value : List ℕ) → h.appends value ≡ true
  pub writes : h.writes ≡ true

-- The status that the client sees, as its digits.
abbrev pub h2_status : List H2Frame → Option (List ℕ)
h2_status [] = none
h2_status (response status padding_value fin ∷ frames) = some (digits status)

abbrev pub h3_status : List H3Frame → Option (List ℕ)
h3_status [] = none
h3_status (body bytes fin ∷ frames) = none
h3_status (headers [] ∷ frames) = none
h3_status (headers ((name, value) ∷ fields) ∷ frames) = some value

-- Whether the stream is closed to the client.
abbrev pub h2_closed : List H2Frame → Bool
h2_closed [] = false
h2_closed (response status padding_value fin ∷ frames) = fin

abbrev pub h3_closed : List H3Frame → Bool
h3_closed [] = false
h3_closed (body bytes fin ∷ frames) = fin
h3_closed (headers fields ∷ frames) = h3_closed frames

-- The results are the same, the client sees the same status, and the stream is closed alike.
abbrev pub Alike : {D : Type 0} → List H2Frame × Outcome D → List H3Frame × Outcome D → Type 0
Alike r2 r3 = (r2.1 ≡ r3.1) × (h2_status r2.0 ≡ h3_status r3.0) × (h2_closed r2.0 ≡ h3_closed r3.0)

module _ {D : Type 0} (h : Pingora) (p : Parsing) (d : Decoding) (authenticate : List ℕ → Option ℕ)
    (route : Address → OutboundType D) where
  carried-Alike :
      (c : Decision D) (padding_value : List ℕ)
      → Responds h
      → Alike
          (h2_respond h p d authenticate route padding_value (carried (send_pingora_status h) c))
          (h3_respond p d authenticate route true padding_value (carried send_status c))
  unfolding h2_respond h3_respond send_pingora_status send_status
  carried-Alike (answered status) padding_value works = rw (works.builds status) (refl, refl, refl)
  carried-Alike dropped padding_value works = (refl, refl, refl)
  carried-Alike (opened target user outbound) padding_value works =
      rw (works.builds 200, works.appends padding_value, works.writes) (refl, refl, refl)

  -- Of requests with the same content, where the answers can be sent, both entry points return the
  -- same or open a tunnel to the same target, for the same user, on the same route, show the client
  -- the same status or none, and close the stream alike.
  pub entries_agree :
      (padding_value : List ℕ) (req : RequestHeader) (header_list : List (List ℕ × List ℕ))
      → Responds h
      → h2_view h p d authenticate route req ≡ h3_view p d authenticate route header_list
      → Alike
          (h2_entry h p d authenticate route padding_value req)
          (h3_entry p d authenticate route true padding_value header_list)
  entries_agree padding_value req header_list works same =
      rw
        (
          h2_entry_lem h p d authenticate route padding_value req,
          h3_entry_lem p d authenticate route true padding_value header_list,
          same,
        )
        (carried-Alike _ padding_value works)
