-- ===== src/Names/Tests.antt =====
-- fs.c: the examples of the comment on skipelem, and paths in a small tree.
use sys_prog_assessment.Prelude.{
  ℕ, true, false, ◌==◌, if◌then◌else◌, List, [], ◌∷◌, none, some, ◌≡◌, refl,
}
use sys_prog_assessment.Names.{slash, skipelem, skip_slashes, span, Tree, namex, namex_loop}
use sys_prog_assessment.Names.Elements.{elements, segments, names}
use sys_prog_assessment.Names.Resolve.{follow, in_dir, inode_of, namei_lem, nameiparent_lem}

abbrev a : ℕ
a = 97

abbrev b : ℕ
b = 98

abbrev c : ℕ
c = 99

first_example :
    skipelem (a ∷ slash ∷ b ∷ b ∷ slash ∷ c ∷ []) ≡ some (a ∷ [], b ∷ b ∷ slash ∷ c ∷ [])
unfolding skipelem skip_slashes span
first_example = refl

second_example :
    skipelem (slash ∷ slash ∷ slash ∷ a ∷ slash ∷ slash ∷ b ∷ b ∷ []) ≡ some (a ∷ [], b ∷ b ∷ [])
unfolding skipelem skip_slashes span
second_example = refl

third_example : skipelem (a ∷ []) ≡ some (a ∷ [], [])
unfolding skipelem skip_slashes span
third_example = refl

fourth_example : skipelem (slash ∷ slash ∷ slash ∷ slash ∷ []) ≡ none
unfolding skipelem skip_slashes
fourth_example = refl

-- The root has the directory 2 under every name, and it has the file 3.
abbrev tree : Tree
tree = record {
  is_dir = λ ip. if ip == 3 then false else true;
  dirlookup = λ ip name. if ip == 1 then some 2 else some 3;
}

abbrev path : List ℕ
path = slash ∷ a ∷ slash ∷ slash ∷ b ∷ b ∷ slash ∷ []

two_elements : elements path ≡ (a ∷ []) ∷ (b ∷ b ∷ []) ∷ []
unfolding segments names
two_elements = refl

found : namex tree 7 false [] path ≡ some (3, b ∷ b ∷ [])
unfolding namex namex_loop skipelem skip_slashes span
found = refl

in_a_file : namex tree 3 false [] (a ∷ []) ≡ none
unfolding namex namex_loop skipelem skip_slashes span
in_a_file = refl

namei_lem_example : inode_of (namex tree 7 false [] path) ≡ follow tree 1 (elements path)
namei_lem_example = namei_lem tree 7 [] path

nameiparent_lem_example :
    namex tree 7 true [] path ≡ in_dir tree (b ∷ b ∷ []) (follow tree 1 ((a ∷ []) ∷ []))
nameiparent_lem_example = nameiparent_lem tree 7 [] path ((a ∷ []) ∷ []) (b ∷ b ∷ []) two_elements
