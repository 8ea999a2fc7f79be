-- ===== src/Strings/Copy.antt =====
-- string.c: strncpy and safestrcpy on C strings.
use sys_prog_assessment.Prelude.{
  ℕ, sym, zero, suc, ◌∙◌, ap, ◌+◌, ◌≤◌, ◌<◌, ◌⊎◌, ◌≡◌, refl, arith, true, false, update,
  update_self, ◌==◌, if◌then◌else◌, Bool-cases, inl, inr, List, [], ◌∷◌,
}
use sys_prog_assessment.Strings.{Memory, pad, strncpy, copy_str, safestrcpy}

-- The C string at an address, of which at most `n` bytes are looked at.
unfoldable pub string_at : ℕ → ℕ → Memory → List ℕ
string_at a zero m = []
string_at a (suc n) m = let rest = string_at (a + 1) n m in if m a == 0 then [] else m a ∷ rest

abbrev pub Apart : ℕ → ℕ → ℕ → Type 0
Apart s t n = (s + n ≤ t) ⊎ (t + n ≤ s)

string_at-update :
    (a n : ℕ) (m : Memory) (b x : ℕ)
    → (b < a) ⊎ (a + n ≤ b)
    → string_at a n (update m b x) ≡ string_at a n m
unfolding string_at
string_at-update a zero m b x h = refl
string_at-update a (suc n) m b x h =
    let rest = string_at-update (a + 1) n m b x (ground arith) in ground (arith, rest)

-- `safestrcpy` past its first test.
abbrev ended : ℕ → ℕ → ℕ → Memory → Memory
ended s t n m = update (copy_str s t n m).0 (copy_str s t n m).1 0

ended-outside : (s t n : ℕ) (m : Memory) (a : ℕ) → (a < s) ⊎ (s + n < a) → ended s t n m a ≡ m a
unfolding copy_str
ended-outside s t zero m a h = ground arith
ended-outside s t (suc n) m a h =
    let rest = ended-outside (s + 1) (t + 1) n (update m s (m t)) a (ground arith) in
    ground (arith, rest)

string_at-nil : (a n : ℕ) (m : Memory) → m a ≡ 0 → string_at a (suc n) m ≡ []
unfolding string_at
string_at-nil a n m e = ground (arith, e)

string_at-cons :
    (a n : ℕ) (m : Memory) {x : ℕ}
    → m a ≡ x
    → (x == 0) ≡ false
    → string_at a (suc n) m ≡ x ∷ string_at (a + 1) n m
unfolding string_at
string_at-cons a n m e h = ground (arith, e, h)

ended_nul :
    (s t n : ℕ) (m : Memory)
    → (m t == 0) ≡ true
    → ended s t (suc n) m ≡ update (update m s (m t)) (s + 1) 0
unfolding copy_str
ended_nul s t n m e = rw e

ended_next :
    (s t n : ℕ) (m : Memory)
    → (m t == 0) ≡ false
    → ended s t (suc n) m ≡ ended (s + 1) (t + 1) n (update m s (m t))
unfolding copy_str
ended_next s t n m e = rw e

string_at-ended :
    (s t n : ℕ) (m : Memory)
    → (s + n < t) ⊎ (t + n ≤ s)
    → string_at s (suc n) (ended s t n m) ≡ string_at t n m
string_at-ended s t zero m h = unfold string_at copy_str in ground arith
string_at-ended s t (suc n) m h = elim (Bool-cases (m t == 0)) [
  | inl e ↦
      let z : m t ≡ 0 = ground arith in
      rw (ended_nul s t n m e, string_at-nil t n m z)
        (string_at-nil s (suc n) (update (update m s (m t)) (s + 1) 0) (ground arith))
  | inr e ↦
      let m' : Memory = update m s (m t) in
      let rest = string_at-ended (s + 1) (t + 1) n m' (ground arith) in
      let kept = string_at-update (t + 1) n m s (m t) (ground arith) in
      let head : ended (s + 1) (t + 1) n m' s ≡ m t =
        ended-outside (s + 1) (t + 1) n m' s (ground arith) ∙ update_self m s (m t) in
      rw (ended_next s t n m e) (
        string_at-cons s (suc n) (ended (s + 1) (t + 1) n m') head e
        ∙ ap (λ xs. m t ∷ xs) (rest ∙ kept)
        ∙ sym (string_at-cons t n m refl e))
]

-- safestrcpy of `suc n` bytes leaves at `s` the string at `t`, cut to `n` bytes and then a NUL, and
-- changes no byte outside of the `suc n` bytes at `s`, where the two ranges do not overlap.
pub safestrcpy_lem :
    (s t n : ℕ) (m : Memory) (a : ℕ)
    → (s + n < t) ⊎ (t + n ≤ s)
    → (a < s) ⊎ (s + n < a)
    → (string_at s (suc n) (safestrcpy s t (suc n) m) ≡ string_at t n m)
      × (safestrcpy s t (suc n) m a ≡ m a)
unfolding safestrcpy
safestrcpy_lem s t n m a h o = (string_at-ended s t n m h, ended-outside s t n m a o)

pad-outside : (s n : ℕ) (m : Memory) (a : ℕ) → (a < s) ⊎ (s + n ≤ a) → pad s n m a ≡ m a
unfolding pad
pad-outside s zero m a h = refl
pad-outside s (suc n) m a h =
    let rest = pad-outside (s + 1) n (update m s 0) a (ground arith) in ground (arith, rest)

strncpy_nul :
    (s t n : ℕ) (m : Memory)
    → (m t == 0) ≡ true
    → strncpy s t (suc n) m ≡ pad (s + 1) n (update m s (m t))
unfolding strncpy
strncpy_nul s t n m e = rw e

strncpy_next :
    (s t n : ℕ) (m : Memory)
    → (m t == 0) ≡ false
    → strncpy s t (suc n) m ≡ strncpy (s + 1) (t + 1) n (update m s (m t))
unfolding strncpy
strncpy_next s t n m e = rw e

strncpy-outside : (s t n : ℕ) (m : Memory) (a : ℕ) → (a < s) ⊎ (s + n ≤ a) → strncpy s t n m a ≡ m a
strncpy-outside s t zero m a h = unfold strncpy in refl
strncpy-outside s t (suc n) m a h = elim (Bool-cases (m t == 0)) [
  | inl e ↦
      let rest = pad-outside (s + 1) n (update m s (m t)) a (ground arith) in
      rw (strncpy_nul s t n m e) (rest ∙ ground arith)
  | inr e ↦
      let rest = strncpy-outside (s + 1) (t + 1) n (update m s (m t)) a (ground arith) in
      rw (strncpy_next s t n m e) (rest ∙ ground arith)
]

string_at-strncpy :
    (s t n : ℕ) (m : Memory) → Apart s t n → string_at s n (strncpy s t n m) ≡ string_at t n m
string_at-strncpy s t zero m h = unfold string_at in refl
string_at-strncpy s t (suc n) m h = elim (Bool-cases (m t == 0)) [
  | inl e ↦
      let z : m t ≡ 0 = ground arith in
      let first : pad (s + 1) n (update m s (m t)) s ≡ 0 =
        pad-outside (s + 1) n (update m s (m t)) s (ground arith) ∙ update_self m s (m t) ∙ z in
      rw (strncpy_nul s t n m e, string_at-nil t n m z)
        (string_at-nil s n (pad (s + 1) n (update m s (m t))) first)
  | inr e ↦
      let m' : Memory = update m s (m t) in
      let rest = string_at-strncpy (s + 1) (t + 1) n m' (ground arith) in
      let kept = string_at-update (t + 1) n m s (m t) (ground arith) in
      let first : strncpy (s + 1) (t + 1) n m' s ≡ m t =
        strncpy-outside (s + 1) (t + 1) n m' s (ground arith) ∙ update_self m s (m t) in
      rw (strncpy_next s t n m e) (
        string_at-cons s n (strncpy (s + 1) (t + 1) n m') first e
        ∙ ap (λ xs. m t ∷ xs) (rest ∙ kept)
        ∙ sym (string_at-cons t n m refl e))
]

-- strncpy leaves at `s` the string at `t` as far as its first `n` bytes go, and changes no byte
-- outside of the `n` bytes at `s`, where the two ranges do not overlap.
pub strncpy_lem :
    (s t n : ℕ) (m : Memory) (a : ℕ)
    → Apart s t n
    → (a < s) ⊎ (s + n ≤ a)
    → (string_at s n (strncpy s t n m) ≡ string_at t n m) × (strncpy s t n m a ≡ m a)
strncpy_lem s t n m a h o = (string_at-strncpy s t n m h, strncpy-outside s t n m a o)
