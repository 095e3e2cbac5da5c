-- ===== src/Tools/ExecCommand/Output.antt =====
-- `cappedOutputBuffer` of internal/tools/exec_command.go, which both streams of a command write to.
use zai_proxy.Base.{
  ℕ, zero, suc, ◌+◌, ◌-◌, ◌≤◌, ◌<◌, ◌≡◌, refl, sym, ap, ◌∙◌, ◌↔◌, inl, inr, Bool, true, List, [],
  ◌∷◌, ◌++◌, append-nil, append_assoc, arith, ltb, if◌then◌else◌, Bool-cases, length, take,
  length-append,
}
use mathlib.Core.Path.{subst}
use zai_proxy.Text.{Bytes, concat}

pub record CappedOutputBuffer : Type 0 where
  pub limit : ℕ
  pub total : ℕ
  pub buf : Bytes

-- `&cappedOutputBuffer{limit: limit}`
abbrev pub new_capped_output_buffer : ℕ → CappedOutputBuffer
new_capped_output_buffer limit = record { limit = limit; total = 0; buf = [] }

-- `Write` with what it returns. A limit that is reached or passed leaves 0.
unfoldable pub write_output : CappedOutputBuffer → Bytes → CappedOutputBuffer × ℕ
write_output b p =
    let remaining = b.limit - length b.buf in
    let kept =
      if ltb 0 remaining then (if ltb remaining (length p) then take remaining p else p) else [] in
    (record b { total = b.total + length p; buf = b.buf ++ kept }, length p)

unfoldable pub write_all : CappedOutputBuffer → List Bytes → CappedOutputBuffer
unfolding write_output
write_all b [] = b
write_all b (p ∷ ps) = write_all (write_output b p).0 ps

abbrev pub truncated : CappedOutputBuffer → Bool
truncated b = ltb (length b.buf) b.total

take-short : (n : ℕ) (s : Bytes) → length s ≤ n → take n s ≡ s
take-short zero [] h = refl
take-short zero (c ∷ s) h = let no : ⊥ = omega arith in absurd no
take-short (suc n) [] h = refl
take-short (suc n) (c ∷ s) h = ap (◌∷◌ c) (take-short n s (omega arith))

take-append_more : (n : ℕ) (s t : Bytes) → take n (s ++ t) ≡ take n s ++ take (n - length s) t
take-append_more zero s t = let e : 0 - length s ≡ 0 = omega arith in rw e refl
take-append_more (suc n) [] t = let e : suc n - 0 ≡ suc n = omega arith in rw e refl
take-append_more (suc n) (c ∷ s) t =
    let e : suc n - suc (length s) ≡ n - length s = omega arith in
    rw e (ap (◌∷◌ c) (take-append_more n s t))

length-take_le : (n : ℕ) (s : Bytes) → length (take n s) ≤ n
length-take_le zero s = omega arith
length-take_le (suc n) [] = omega arith
length-take_le (suc n) (c ∷ s) = omega (arith, length-take_le n s)

take_room : (n : ℕ) (s : Bytes) → n - length (take n s) ≡ n - length s
take_room zero s = omega arith
take_room (suc n) [] = refl
take_room (suc n) (c ∷ s) = omega (arith, take_room n s)

-- What `Write` keeps for `n` bytes of room.
kept_lem :
    (n : ℕ) (p : Bytes)
    → (if ltb 0 n then (if ltb n (length p) then take n p else p) else []) ≡ take n p
kept_lem zero p = refl
kept_lem (suc n) p = elim (Bool-cases (ltb (suc n) (length p))) [
  | inl more ↦ rw more (ground arith)
  | inr fits ↦ rw fits (ground (arith, take-short (suc n) p))
]

-- The buffer after the text `s` was written.
abbrev after : ℕ → Bytes → CappedOutputBuffer
after limit s = record { limit = limit; total = length s; buf = take limit s }

write_output-after :
    (limit : ℕ) (s p : Bytes) → (write_output (after limit s) p).0 ≡ after limit (s ++ p)
unfolding write_output
write_output-after limit s p =
    rw (length-append, take-append_more, take_room)
      (ap
        (λ kept. record { limit = limit; total = length s + length p; buf = take limit s ++ kept })
        (kept_lem (limit - length s) p))

write_all-after :
    (limit : ℕ) (s : Bytes) (ps : List Bytes)
    → write_all (after limit s) ps ≡ after limit (s ++ concat ps)
unfolding write_all
write_all-after limit s [] = rw append-nil refl
write_all-after limit s (p ∷ ps) =
    ap (λ b. write_all b ps) (write_output-after limit s p)
    ∙ write_all-after limit (s ++ p) ps
    ∙ ap (after limit) (append_assoc s p (concat ps))

abbrev pub Kept : ℕ → Bytes → CappedOutputBuffer → Type 0
Kept limit s b =
    (b.buf ≡ take limit s) × (b.total ≡ length s) × ((truncated b ≡ true) ↔ (limit < length s))

after-Kept : (limit : ℕ) (s : Bytes) → Kept limit s (after limit s)
after-Kept limit s = (refl, refl, ground (arith, length-take_le limit s, take-short limit s))

after-nil : (n : ℕ) → after n [] ≡ new_capped_output_buffer n
after-nil zero = refl
after-nil (suc n) = refl

-- However the output is cut into writes, the buffer keeps the first `limit` bytes of it, counts all
-- of them, and reports a truncated output exactly when there were more than `limit`.
pub write_all-Kept :
    (limit : ℕ) (ps : List Bytes)
    → Kept limit (concat ps) (write_all (new_capped_output_buffer limit) ps)
write_all-Kept limit ps =
    let whole : after limit (concat ps) ≡ write_all (new_capped_output_buffer limit) ps =
      sym (write_all-after limit [] ps) ∙ ap (λ c. write_all c ps) (after-nil limit) in
    subst (Kept limit (concat ps)) whole (after-Kept limit (concat ps))

pub length-write_all_le :
    (limit : ℕ) (ps : List Bytes)
    → length (write_all (new_capped_output_buffer limit) ps).buf ≤ limit
length-write_all_le limit ps =
    omega (arith, ap length (write_all-Kept limit ps).0, length-take_le limit (concat ps))
