-- ===== src/Names/Resolve.antt =====
-- fs.c: namex follows the elements of a path.
use sys_prog_assessment.Prelude.{
  ℕ, zero, suc, ◌+◌, ◌<◌, ◌≡◌, ◌≢◌, refl, sym, ap, ◌∙◌, arith, Bool, true, false, ◌&&◌,
  if◌then◌else◌, Bool-cases, inl, inr, List, [], ◌∷◌, ◌++◌, Option, none, some, Option-cases,
  length,
}
use sys_prog_assessment.Names.{skip_slashes, skipelem, Tree, at_end, namex_loop, namex, start}
use sys_prog_assessment.Names.Elements.{elements, skipelem-elements, rest_end, elements_end}

-- The inode that a list of names leads to.
unfoldable pub follow : Tree → ℕ → List (List ℕ) → Option ℕ
follow t ip [] = some ip
follow t ip (n ∷ ns) =
    if t.is_dir ip
    then (elim (t.dirlookup ip n) [ none ↦ none | some next ↦ follow t next ns ])
    else none

abbrev pub inode_of : Option (ℕ × List ℕ) → Option ℕ
inode_of none = none
inode_of (some r) = some r.0

-- A directory with a name in it, where there is the directory.
abbrev pub in_dir : Tree → List ℕ → Option ℕ → Option (ℕ × List ℕ)
in_dir t name none = none
in_dir t name (some ip) = if t.is_dir ip then some (ip, name) else none

module _ (fuel : ℕ) (t : Tree) (parent : Bool) (ip : ℕ) (name path : List ℕ) where
  loop-none :
      skipelem path ≡ none
      → namex_loop (suc fuel) t parent ip name path ≡ (if parent then none else some (ip, name))
  unfolding namex_loop
  loop-none h = rw (namex_loop, h)

  loop-file :
      (n rest : List ℕ)
      → skipelem path ≡ some (n, rest)
      → t.is_dir ip ≡ false
      → namex_loop (suc fuel) t parent ip name path ≡ none
  unfolding namex_loop
  loop-file n rest h d = rw (namex_loop, h, d)

  loop-last :
      (n rest : List ℕ)
      → skipelem path ≡ some (n, rest)
      → t.is_dir ip ≡ true
      → (parent && at_end rest) ≡ true
      → namex_loop (suc fuel) t parent ip name path ≡ some (ip, n)
  unfolding namex_loop
  loop-last n rest h d e = rw (namex_loop, h, d, e)

  loop-missing :
      (n rest : List ℕ)
      → skipelem path ≡ some (n, rest)
      → t.is_dir ip ≡ true
      → (parent && at_end rest) ≡ false
      → t.dirlookup ip n ≡ none
      → namex_loop (suc fuel) t parent ip name path ≡ none
  unfolding namex_loop
  loop-missing n rest h d e k = rw (namex_loop, h, d, e, k)

  loop-next :
      (n rest : List ℕ) (next : ℕ)
      → skipelem path ≡ some (n, rest)
      → t.is_dir ip ≡ true
      → (parent && at_end rest) ≡ false
      → t.dirlookup ip n ≡ some next
      → namex_loop (suc fuel) t parent ip name path ≡ namex_loop fuel t parent next n rest
  unfolding namex_loop
  loop-next n rest next h d e k = rw (namex_loop, h, d, e, k)

module _ (t : Tree) (ip : ℕ) (n : List ℕ) (ns : List (List ℕ)) where
  follow-file : t.is_dir ip ≡ false → follow t ip (n ∷ ns) ≡ none
  unfolding follow
  follow-file d = rw d

  follow-missing : t.is_dir ip ≡ true → t.dirlookup ip n ≡ none → follow t ip (n ∷ ns) ≡ none
  unfolding follow
  follow-missing d k = rw (d, k)

  follow-next :
      (next : ℕ)
      → t.is_dir ip ≡ true
      → t.dirlookup ip n ≡ some next
      → follow t ip (n ∷ ns) ≡ follow t next ns
  unfolding follow
  follow-next next d k = rw (d, k)

loop-follow :
    (fuel : ℕ) (t : Tree) (ip : ℕ) (name path : List ℕ)
    → length path < fuel
    → inode_of (namex_loop fuel t false ip name path) ≡ follow t ip (elements path)
unfolding follow
loop-follow zero t ip name path h = absurd (omega arith)
loop-follow (suc fuel) t ip name path h = elim (skipelem-elements path) [
  | inl (e, z) ↦ ap inode_of (loop-none fuel t false ip name path e) ∙ sym (ap (follow t ip) z)
  | inr (n, rest, e, z, l, s) ↦ elim (Bool-cases (t.is_dir ip)) [
    | inr d ↦
        ap inode_of (loop-file fuel t false ip name path n rest e d)
        ∙ sym (ap (follow t ip) z ∙ follow-file t ip n (elements rest) d)
    | inl d ↦ elim (Option-cases (t.dirlookup ip n)) [
      | inl k ↦
          ap inode_of (loop-missing fuel t false ip name path n rest e d refl k)
          ∙ sym (ap (follow t ip) z ∙ follow-missing t ip n (elements rest) d k)
      | inr (next, k) ↦
          ap inode_of (loop-next fuel t false ip name path n rest next e d refl k)
          ∙ loop-follow fuel t next n rest (omega arith)
          ∙ sym (ap (follow t ip) z ∙ follow-next t ip n (elements rest) next d k)
    ]
  ]
]

at_end-nil : (rest : List ℕ) → rest ≡ [] → (true && at_end rest) ≡ true
at_end-nil rest h = rw h

not_at_end : (rest : List ℕ) → rest ≢ [] → (true && at_end rest) ≡ false
not_at_end [] h = absurd (h refl)
not_at_end (c ∷ rest) h = refl

more_than_nil : (ns : List (List ℕ)) (last : List ℕ) → ns ++ last ∷ [] ≢ []
more_than_nil [] last h = cc
more_than_nil (n ∷ ns) last h = cc

-- What is left of a path whose elements are known.
abbrev Taken : List ℕ → List ℕ → List (List ℕ) → Type 0
Taken path n ns =
    (rest : List ℕ) × (skipelem path ≡ some (n, rest))
    × (elements rest ≡ ns)
    × (length rest < length path)
    × (skip_slashes rest ≡ rest)

takes : (path n : List ℕ) (ns : List (List ℕ)) → elements path ≡ n ∷ ns → Taken path n ns
takes path n ns z = elim (skipelem-elements path) [
  | inl (e, y) ↦ cc (sym y ∙ z)
  | inr (m, rest, e, y, l, s) ↦
      let first : m ≡ n = cc (sym y ∙ z) in
      let others : elements rest ≡ ns = cc (sym y ∙ z) in
      (rest, e ∙ ap (λ x. some (x, rest)) first, others, l, s)
]

loop_parent :
    (fuel : ℕ) (t : Tree) (ip : ℕ) (name path : List ℕ) (ns : List (List ℕ)) (last : List ℕ)
    → length path < fuel
    → elements path ≡ ns ++ last ∷ []
    → namex_loop fuel t true ip name path ≡ in_dir t last (follow t ip ns)
unfolding follow
loop_parent zero t ip name path ns last h z = absurd (omega arith)
loop_parent (suc fuel) t ip name path [] last h z =
    let (rest, e, y, l, s) = takes path last [] z in
    elim (Bool-cases (t.is_dir ip)) [
      | inr d ↦ loop-file fuel t true ip name path last rest e d ∙ rw d
      | inl d ↦
          loop-last fuel t true ip name path last rest e d (at_end-nil rest (rest_end rest s y))
          ∙ rw d
    ]
loop_parent (suc fuel) t ip name path (n ∷ ns) last h z =
    let (rest, e, y, l, s) = takes path n (ns ++ last ∷ []) z in
    let inner = not_at_end rest (λ q. more_than_nil ns last (sym y ∙ elements_end rest q)) in
    elim (Bool-cases (t.is_dir ip)) [
      | inr d ↦
          loop-file fuel t true ip name path n rest e d
          ∙ sym (ap (in_dir t last) (follow-file t ip n ns d))
      | inl d ↦ elim (Option-cases (t.dirlookup ip n)) [
        | inl k ↦
            loop-missing fuel t true ip name path n rest e d inner k
            ∙ sym (ap (in_dir t last) (follow-missing t ip n ns d k))
        | inr (next, k) ↦
            loop-next fuel t true ip name path n rest next e d inner k
            ∙ loop_parent fuel t next n rest ns last (omega arith) y
            ∙ sym (ap (in_dir t last) (follow-next t ip n ns next d k))
      ]
    ]

-- namex of a path, as namei calls it, leads to the inode that the elements of the path lead to from the
-- root or the current directory: the segments between the slashes that are not empty, cut to DIRSIZ
-- bytes. It finds none where an element is missing or is looked up in what is no directory. The
-- rounds that the loop is given are enough.
pub namei_lem :
    (t : Tree) (cwd : ℕ) (name path : List ℕ)
    → inode_of (namex t cwd false name path) ≡ follow t (start cwd path) (elements path)
unfolding namex
namei_lem t cwd name path = loop-follow (length path + 1) t (start cwd path) name path (omega arith)

-- namex of a path with the elements `ns` and then `last`, as nameiparent calls it, gives the directory
-- that `ns` leads to, with the name `last`, and none where `ns` leads to no directory.
pub nameiparent_lem :
    (t : Tree) (cwd : ℕ) (name path : List ℕ) (ns : List (List ℕ)) (last : List ℕ)
    → elements path ≡ ns ++ last ∷ []
    → namex t cwd true name path ≡ in_dir t last (follow t (start cwd path) ns)
unfolding namex
nameiparent_lem t cwd name path ns last z =
    loop_parent (length path + 1) t (start cwd path) name path ns last (omega arith) z
