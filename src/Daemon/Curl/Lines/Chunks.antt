-- ===== src/Daemon/Curl/Lines/Chunks.antt =====
-- curl_manager.c: however the network cuts the response, the same lines are processed.
use mathlib.Core.Path.{fun_ext}
use mod_socket_handoff.Base.{
  ℕ, zero, suc, ◌<◌, ◌≡◌, refl, ap, ◌∙◌, some, List, [], ◌∷◌, ◌++◌, Bytes, length, length-append,
  append-nil, append_assoc, arith, Option-cases, inl, inr,
}
use mod_socket_handoff.Daemon.Streaming.Chunks.{concat}
use mod_socket_handoff.Daemon.Curl.Lines.{
  Outcome, failed, fine, split_line, strip_return, each_line, take_bytes, take_pieces,
  after_process, then_take,
}

split_line-append :
    (a b line rest : Bytes)
    → split_line a ≡ some (line, rest)
    → (split_line (a ++ b) ≡ some (line, rest ++ b)) × (length rest < length a)
unfolding split_line
split_line-append [] b line rest e = cc
split_line-append (c ∷ a) b line rest e = elim (Option-cases (split_line a)) [
  | inl f ↦ ground arith
  | inr ((l, r), f) ↦ ground (arith, split_line-append a b l r f)
]

module _ {S : Type 0} (process : S → Bytes → Outcome S S) where
  -- Fuel above the length of the text is enough.
  each_line-enough :
      (n m : ℕ) (s : S) (text : Bytes)
      → length text < n
      → length text < m
      → each_line process n s text ≡ each_line process m s text
  unfolding each_line
  each_line-enough zero m s text h g = absurd (omega arith)
  each_line-enough (suc n) zero s text h g = absurd (omega arith)
  each_line-enough (suc n) (suc m) s text h g = elim (Option-cases (split_line text)) [
    | inl e ↦ rw e refl
    | inr ((line, rest), e) ↦
        let k = (split_line-append text [] line rest e).1 in
        rw e (
          ap (λ (go : S → Outcome S (S × Bytes)). after_process go (process s (strip_return line)))
            (fun_ext (λ s'. each_line-enough n m s' rest (omega (arith, k)) (omega (arith, k)))))
  ]

  -- The rest of one run, with more bytes behind it, goes on as one run over all.
  join :
      (n m : ℕ) (s : S) (a b : Bytes)
      → length a < n
      → length (a ++ b) < m
      → then_take (λ (st : S × Bytes). take_bytes process st b) (each_line process n s a)
        ≡ each_line process m s (a ++ b)
  unfolding each_line take_bytes
  join zero m s a b h g = absurd (omega arith)
  join (suc n) zero s a b h g = absurd (omega arith)
  join (suc n) (suc m) s a b h g = elim (Option-cases (split_line a)) [
    | inl e ↦ rw e (each_line-enough (suc (length (a ++ b))) (suc m) s (a ++ b) (omega arith) g)
    | inr ((line, rest), e) ↦
        let (f, k) = split_line-append a b line rest e in
        rw (e, f)
          (split_process (λ (s' : S). each_line process n s' rest)
            (λ (s' : S). each_line process m s' (rest ++ b))
            (λ (st : S × Bytes). take_bytes process st b) (process s (strip_return line))
            (λ s'.
              join n m s' rest b (omega (arith, k))
                (omega (arith, k, g, length-append rest b, length-append a b))))
  ]
    where
      split_process :
          (x y : S → Outcome S (S × Bytes)) (go : S × Bytes → Outcome S (S × Bytes))
          (o : Outcome S S)
          → ((s' : S) → then_take go (x s') ≡ y s')
          → then_take go (after_process x o) ≡ after_process y o
      split_process x y go (failed s) h = refl
      split_process x y go (fine s') h = h s'

  take_twice :
      (st : S × Bytes) (a b : Bytes)
      → then_take (λ (st' : S × Bytes). take_bytes process st' b) (take_bytes process st a)
        ≡ take_bytes process st (a ++ b)
  unfolding take_bytes
  take_twice (s, held) a b = rw (← append_assoc) (
      join (suc (length (held ++ a))) (suc (length ((held ++ a) ++ b))) s (held ++ a) b
        (omega arith) (omega arith))

  -- One call of `write_callback` after the other processes the same lines, in the same order and with the same outcome,
  -- as a single call with all the bytes, and leaves the same partial line: where the pieces are cut does not matter.
  pub pieces-concat :
      (st : S × Bytes) (piece : Bytes) (pieces : List Bytes)
      → take_pieces process st (piece ∷ pieces) ≡ take_bytes process st (concat (piece ∷ pieces))
  pieces-concat st piece [] = rw append-nil (then_fine (take_bytes process st piece))
    where
      then_fine : (o : Outcome S (S × Bytes)) → then_take (λ (st' : S × Bytes). fine st') o ≡ o
      then_fine (failed s) = refl
      then_fine (fine st') = refl
  pieces-concat st piece (q ∷ pieces) =
      ap (λ (go : S × Bytes → Outcome S (S × Bytes)). then_take go (take_bytes process st piece))
        (fun_ext (λ st'. pieces-concat st' q pieces))
      ∙ take_twice st piece (q ++ concat pieces)
