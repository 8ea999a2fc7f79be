-- ===== src/Names.antt =====
-- fs.c: skipelem and namex. A path is the list of its bytes, without the NUL that ends it, and a name is
-- the string that its buffer of DIRSIZ bytes then holds. What the directories of the disk say is a `Tree`.
pub mod Elements
pub mod Resolve
mod Tests
use sys_prog_assessment.Prelude.{
  ℕ, zero, suc, Bool, true, false, ◌==◌, ◌&&◌, if◌then◌else◌, List, [], ◌∷◌, Option, none, some,
  take, length, ◌+◌,
}

abbrev pub slash : ℕ
slash = 47

abbrev pub dirsiz : ℕ
dirsiz = 14

abbrev pub rootino : ℕ
rootino = 1

-- `while (*path == '/') path++;`
unfoldable pub skip_slashes : List ℕ → List ℕ
skip_slashes [] = []
skip_slashes (c ∷ path) = let rest = skip_slashes path in if c == slash then rest else c ∷ path

-- `while (*path != '/' && *path != 0) path++;`: what it goes over, and the rest.
unfoldable pub span : List ℕ → List ℕ × List ℕ
span [] = ([], [])
span (c ∷ path) = let r = span path in if c == slash then ([], c ∷ path) else (c ∷ r.0, r.1)

unfoldable pub skipelem : List ℕ → Option (List ℕ × List ℕ)
unfolding skip_slashes span
skipelem path = elim (skip_slashes path) [
  | [] ↦ none
  | c ∷ rest ↦ let r = span (c ∷ rest) in some (take dirsiz r.0, skip_slashes r.1)
]

-- Which inodes are directories, and what dirlookup finds in them.
pub record Tree : Type 0 where
  pub is_dir : ℕ → Bool
  pub dirlookup : ℕ → List ℕ → Option ℕ

abbrev pub at_end : List ℕ → Bool
at_end [] = true
at_end (c ∷ path) = false

-- The loop of namex from the inode `ip`, for at most `fuel` rounds: the inode that is returned, with
-- what `name` holds.
unfoldable pub namex_loop : ℕ → Tree → Bool → ℕ → List ℕ → List ℕ → Option (ℕ × List ℕ)
unfolding skipelem
namex_loop zero t nameiparent ip name path = none
namex_loop (suc fuel) t nameiparent ip name path = elim (skipelem path) [
  | none ↦ if nameiparent then none else some (ip, name)
  | some r ↦
      if t.is_dir ip
      then (if nameiparent && at_end r.1 then some (ip, r.0) else (elim (t.dirlookup ip r.0) [
        | none ↦ none
        | some next ↦ namex_loop fuel t nameiparent next r.0 r.1
      ]))
      else none
]

-- Where namex begins: at the root for a path that begins with a slash, else in the current directory.
abbrev pub start : ℕ → List ℕ → ℕ
start cwd [] = cwd
start cwd (c ∷ path) = if c == slash then rootino else cwd

unfoldable pub namex : Tree → ℕ → Bool → List ℕ → List ℕ → Option (ℕ × List ℕ)
unfolding namex_loop
namex t cwd nameiparent name path =
    namex_loop (length path + 1) t nameiparent (start cwd path) name path
