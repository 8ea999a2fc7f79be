-- ===== src/Log/Room.antt =====
-- Log space: the blocks that the operations in progress may still add to the transaction.
use sys_prog_assessment.Prelude.{
  ℕ, suc, ◌+◌, ◌-◌, ◌≤◌, ◌≡◌, refl, ap, true, List, [], ◌∷◌, ◌++◌, length, arith, Bool-cases, inl,
  inr, ◌==◌, All, All-map, ◌*◌, subst, contains, ltb, if◌then◌else◌,
}
use sys_prog_assessment.Log.{maxopblocks, absorb}
use sys_prog_assessment.Log.Ops.{may_write, noted}

-- The blocks that the operations may still add.
unfoldable pub room : List (List ℕ) → ℕ
room [] = 0
room (w ∷ ws) = (maxopblocks - length w) + room ws

-- An operation within its bound, whose blocks are all in the transaction.
abbrev pub IsLogged : List ℕ → List ℕ → Type 0
IsLogged lh w = (length w ≤ maxopblocks) × All (λ c. contains c lh ≡ true) w

pub room_split :
    (xs ys : List (List ℕ)) (w : List ℕ)
    → room (xs ++ (w ∷ ys)) ≡ (maxopblocks - length w) + room (xs ++ ys)
unfolding room
room_split [] ys w = refl
room_split (x ∷ xs) ys w = omega (arith, room_split xs ys w)

pub length_split :
    (xs ys : List (List ℕ)) (w : List ℕ) → length (xs ++ (w ∷ ys)) ≡ suc (length (xs ++ ys))
length_split [] ys w = refl
length_split (x ∷ xs) ys w = ap suc (length_split xs ys w)

pub room-le : (ws : List (List ℕ)) → room ws ≤ length ws * maxopblocks
unfolding room
room-le [] = omega arith
room-le (w ∷ ws) = omega (arith, room-le ws)

contains-absorb : (cs : List ℕ) (b c : ℕ) → contains c cs ≡ true → contains c (absorb cs b) ≡ true
unfolding absorb
contains-absorb [] b c h = cc
contains-absorb (x ∷ cs) b c h = ground (arith, contains-absorb cs b c)

absorb-contains : (cs : List ℕ) (b : ℕ) → contains b (absorb cs b) ≡ true
unfolding absorb
absorb-contains [] b = ground arith
absorb-contains (x ∷ cs) b = ground (arith, absorb-contains cs b)

pub length-absorb :
    (cs : List ℕ) (b : ℕ)
    → length (absorb cs b) ≡ (if contains b cs then length cs else length cs + 1)
unfolding absorb
length-absorb [] b = refl
length-absorb (c ∷ cs) b = ground (arith, length-absorb cs b)

pub IsLogged-absorb : (lh w : List ℕ) (b : ℕ) → IsLogged lh w → IsLogged (absorb lh b) w
IsLogged-absorb lh w b (l, h) = (
  l,
  All-map (λ c. contains c lh ≡ true) (λ c. contains c (absorb lh b) ≡ true)
      (λ c. contains-absorb lh b c) w h,
)

pub IsLogged-noted :
    (lh w : List ℕ) (b : ℕ)
    → may_write b w ≡ true
    → IsLogged lh w
    → IsLogged (absorb lh b) (noted b w)
IsLogged-noted lh w b m h = elim (Bool-cases (contains b w)) [
  | inl old ↦ rw old (IsLogged-absorb lh w b h)
  | inr new ↦
      let few : ltb (length w) maxopblocks ≡ true = rw new at m in
      let (l, a) = IsLogged-absorb lh w b h in rw new (ground arith, (absorb-contains lh b, a))
]

module _ {P Q : List ℕ → Type 0} (f : (w : List ℕ) → P w → Q w) where
  -- One entry of the list replaced, or taken out.
  pub All-replace :
      (xs ys : List (List ℕ)) (v w : List ℕ)
      → (P v → Q w)
      → All P (xs ++ (v ∷ ys))
      → All Q (xs ++ (w ∷ ys))
  All-replace [] ys v w g (h, hs) = (g h, All-map P Q f ys hs)
  All-replace (x ∷ xs) ys v w g (h, hs) = (f x h, All-replace xs ys v w g hs)

  pub All-drop : (xs ys : List (List ℕ)) (v : List ℕ) → All P (xs ++ (v ∷ ys)) → All Q (xs ++ ys)
  All-drop [] ys v (h, hs) = All-map P Q f ys hs
  All-drop (x ∷ xs) ys v (h, hs) = (f x h, All-drop xs ys v hs)

pub All-split :
    (P : List ℕ → Type 0) (xs ys : List (List ℕ)) (w : List ℕ) → All P (xs ++ (w ∷ ys)) → P w
All-split P [] ys w h = h.0
All-split P (x ∷ xs) ys w h = All-split P xs ys w h.1

pub All-contains :
    (lh w : List ℕ) (b : ℕ)
    → All (λ c. contains c lh ≡ true) w
    → contains b w ≡ true
    → contains b lh ≡ true
All-contains lh [] b h c = cc
All-contains lh (x ∷ w) b (h, hs) c = elim (Bool-cases (x == b)) [
  | inl e ↦ let same : x ≡ b = ground arith in subst (λ y. contains y lh ≡ true) same h
  | inr e ↦ All-contains lh w b hs (ground arith)
]

-- What a write adds to the transaction it takes from the room of its operation.
pub write_budget :
    (lh w : List ℕ) (b : ℕ)
    → may_write b w ≡ true
    → IsLogged lh w
    → length (absorb lh b) + (maxopblocks - length (noted b w))
      ≤ length lh + (maxopblocks - length w)
write_budget lh w b m (l, h) = elim (Bool-cases (contains b w)) [
  | inl old ↦ rw (old, length-absorb lh b, All-contains lh w b h old) (omega arith)
  | inr new ↦
      let few : ltb (length w) maxopblocks ≡ true = rw new at m in
      rw (new, length-absorb lh b) (ground arith)
]
