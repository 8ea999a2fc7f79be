-- ===== src/Strings/Compare.antt =====
-- string.c: memcmp and strncmp.
use sys_prog_assessment.Prelude.{ℕ, zero, suc, ◌+◌, ◌≡◌, ◌↔◌, refl, arith, List, [], ◌∷◌}
use sys_prog_assessment.Strings.{Memory, plus, memcmp, strncmp}
use sys_prog_assessment.Strings.Copy.{string_at}

unfoldable pub bytes_at : ℕ → ℕ → Memory → List ℕ
bytes_at a zero m = []
bytes_at a (suc n) m = m a ∷ bytes_at (a + 1) n m

-- memcmp returns 0 exactly where the two ranges hold the same bytes.
pub memcmp-eq-zero :
    (p q n : ℕ) (m : Memory) → (memcmp p q n m ≡ plus 0) ↔ (bytes_at p n m ≡ bytes_at q n m)
unfolding memcmp bytes_at
memcmp-eq-zero p q zero m = (λ h. refl, λ h. refl)
memcmp-eq-zero p q (suc n) m =
    let (to, from) = memcmp-eq-zero (p + 1) (q + 1) n m in
    (λ h. ground (arith, to), λ h. ground (arith, from))

-- strncmp returns 0 exactly where the two strings agree in their first `n` bytes.
pub strncmp-eq-zero :
    (p q n : ℕ) (m : Memory) → (strncmp p q n m ≡ plus 0) ↔ (string_at p n m ≡ string_at q n m)
unfolding strncmp string_at
strncmp-eq-zero p q zero m = (λ h. refl, λ h. refl)
strncmp-eq-zero p q (suc n) m =
    let (to, from) = strncmp-eq-zero (p + 1) (q + 1) n m in
    (λ h. ground (arith, to), λ h. ground (arith, from))
