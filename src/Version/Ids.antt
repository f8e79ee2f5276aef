-- ===== src/Version/Ids.antt =====
-- The ids that `generate_version_id` makes, by their counters.
use synthgen_core.Prelude.{
  ℕ, ◌%◌, ◌^◌, ◌<◌, ◌≤◌, Text, text, text_eq_iff, text_mem, false, ◌≡◌, ◌≢◌, refl, sym, ◌∙◌, List,
  [], ◌∷◌, arith, All, append-cancel_left,
}
use synthgen_core.Prelude.Hex.{to_hex, to_hex-injective, to_hex-Without, split_at_separator}
use synthgen_core.Version.{version_id_text}

version_id_text-counter :
    (a b c a' b' c' : ℕ) → version_id_text a b c ≡ version_id_text a' b' c' → b ≡ b'
unfolding version_id_text text
version_id_text-counter a b c a' b' c' e =
    let (_, after) =
      split_at_separator 95 (to_hex a) (to_hex a') _ _ (to_hex-Without a) (to_hex-Without a')
        (append-cancel_left (text "mv_") _ _ e) in
    let (same, _) =
      split_at_separator 95 (to_hex b) (to_hex b') _ _ (to_hex-Without b) (to_hex-Without b')
        after in
    to_hex-injective b b' same

-- The id was made when the counter was `k`.
abbrev pub IsTicket : ℕ → Text → Type 0
IsTicket k id = (ts : ℕ) × (rand : ℕ) × (id ≡ version_id_text ts (k % 2 ^ 64) rand)

pub IsTicket-injective :
    (j k : ℕ) (id : Text) → j < 2 ^ 64 → k < 2 ^ 64 → IsTicket j id → IsTicket k id → j ≡ k
IsTicket-injective j k id hj hk (ts, rand, e) (ts', rand', e') =
    omega (arith, version_id_text-counter ts (j % 2 ^ 64) rand ts' (k % 2 ^ 64) rand' (sym e ∙ e'))

pub IsTicket-ne-nil : (k : ℕ) (id : Text) → IsTicket k id → id ≢ []
unfolding version_id_text text
IsTicket-ne-nil k id (ts, rand, e) h = cc

-- The id was made when the counter was at least `b`.
abbrev pub TicketFrom : ℕ → Text → Type 0
TicketFrom b id = (j : ℕ) × (b ≤ j) × (j < 2 ^ 64) × IsTicket j id

pub text_mem-TicketFrom :
    (b k : ℕ) (id : Text) (ids : List Text)
    → k < b
    → k < 2 ^ 64
    → IsTicket k id
    → All (TicketFrom b) ids
    → text_mem id ids ≡ false
unfolding text_mem
text_mem-TicketFrom b k id [] h w t all = refl
text_mem-TicketFrom b k id (i ∷ ids) h w t all =
    ground (arith, text_eq_iff i id, differs, text_mem-TicketFrom b k id ids h w t all.1)
  where
    differs : i ≡ id → ⊥
    differs e =
        let (j, at, bound, ticket) = all.0 in
        let same = IsTicket-injective j k id bound w (ticket.0, ticket.1, sym e ∙ ticket.2) t in
        omega arith
