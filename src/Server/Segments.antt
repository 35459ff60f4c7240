-- ===== src/Server/Segments.antt =====
-- The segments that `recv` delivers in sigmadsp/sigmastudio/server.py, as a cut of the stream of bytes.
use sigmadsp.Prelude.{
  ℕ, ◌≤◌, ◌<◌, ◌≡◌, refl, ap, sym, ◌∙◌, Bool-cases, inl, inr, List, [], ◌∷◌, ◌++◌, append_assoc,
  arith, length, take, drop, concat, All, length-take, length-drop, take-append, drop-append,
  take-append_le, drop-append_le, take-append-drop, leb, leb→le, not_leb→lt,
}
use sigmadsp.Server.Socket.{recv_segments}

-- A segment carries a byte at least.
abbrev pub AllArrive : List (List ℕ) → Type 0
AllArrive = All (λ segment. 0 < length segment)

-- What one `recv` took, and what it left.
pub record Received (amount : ℕ) (segments : List (List ℕ)) (r : List ℕ × List (List ℕ))
    : Type 0 where
  pub whole : r.0 ++ concat r.1 ≡ concat segments
  pub arrive : AllArrive r.1
  pub within : length r.0 ≤ amount
  pub progress : 0 < length (concat segments) → 0 < length r.0

-- `recv` splits the stream, within the amount, and makes progress unless the stream is at its end.
pub recv_segments-Received :
    (amount : ℕ) (segments : List (List ℕ))
    → 0 < amount
    → AllArrive segments
    → Received amount segments (recv_segments amount segments)
unfolding recv_segments
recv_segments-Received amount [] h arrive = record {
  whole = refl;
  arrive = tt;
  within = omega arith;
  progress = λ p. p;
}
recv_segments-Received amount (segment ∷ segments) h arrive =
    elim (Bool-cases (leb (length segment) amount)) [
      | inl fits ↦ rw fits (record {
        whole = refl;
        arrive = arrive.1;
        within = leb→le _ _ fits;
        progress = λ _. arrive.0;
      })
      | inr large ↦
          let more : amount < length segment = not_leb→lt _ _ large in
          rw large (record {
            whole =
                sym (append_assoc (take amount segment) (drop amount segment) (concat segments))
                ∙ ap (λ (l : List ℕ). l ++ concat segments) (take-append-drop amount segment);
            arrive = (omega (arith, length-drop amount segment), arrive.1);
            within = omega (arith, length-take amount segment);
            progress = λ _. omega (arith, length-take amount segment);
          })
    ]

-- What is left of `xs` after a first piece `r` of the stream `xs ++ ys`.
module _ (xs ys r rest : List ℕ) (whole : r ++ rest ≡ xs ++ ys)
    (within : length r ≤ length xs) where
  pub split_off : xs ≡ r ++ drop (length r) xs
  split_off =
      let first : take (length r) xs ≡ r =
        sym (take-append_le (length r) xs ys within)
        ∙ ap (take (length r)) (sym whole)
        ∙ take-append r rest (length r) refl in
      sym (take-append-drop (length r) xs) ∙ ap (λ (l : List ℕ). l ++ drop (length r) xs) first

  pub left_over : rest ≡ drop (length r) xs ++ ys
  left_over =
      sym (drop-append r rest (length r) refl)
      ∙ ap (drop (length r)) whole
      ∙ drop-append_le (length r) xs ys within
