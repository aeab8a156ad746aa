-- ===== src/Mcp/Roots.antt =====
-- What it means that a path is within the roots that a client may use (internal/files/security.go:
-- `EnsureWithinRoot`; internal/mcp/bridge.go: `validatePaths`).
use mathlib.Core.List.{append-nil}
use tgup.Prelude.{
  ℕ, ◌≡◌, ◌≢◌, ◌⊎◌, refl, ap, sym, inl, inr, Bool, true, false, not, Option, none, some, List, [],
  ◌∷◌, ◌++◌, map, keep, All, arith, Bool-cases, ◌==◌, if◌then◌else◌, Option-cases, ◌∙◌,
}
use tgup.Prelude.Text.{Text, codes, text_eq, has_prefix, trim_space, join}
use tgup.Scan.Discover.{FileSystem, key_from}
use tgup.Scan.Filter.{is_empty}
use tgup.Mcp.Bridge.{leads_out, evaluated, within, ensure_within_root, some_root, validate_paths}

unfoldable pub push : ℕ → List Text → List Text
push c [] = (c ∷ []) ∷ []
push c (piece ∷ pieces) = (c ∷ piece) ∷ pieces

-- The pieces of a path between its slashes.
unfoldable pub pieces : Text → List Text
unfolding push
pieces [] = [] ∷ []
pieces (c ∷ s) = let rest = pieces s in if c == 47 then [] ∷ rest else push c rest

-- The names of the directories on the way to a path.
unfoldable pub names_of : Text → List Text
unfolding pieces
names_of path = keep (λ piece. not (text_eq piece [])) (pieces path)

-- A path leads to another one, or is it.
abbrev IsBelow : Text → Text → Type 0
IsBelow root target = (rest : List Text) × (names_of target ≡ names_of root ++ rest)

-- The text of a relative path: up out of some directories, and down by names.
abbrev rel_text : List Text → List Text → Text
rel_text [] [] = codes "."
rel_text gone names = join (codes "/") (map (λ name. codes "..") gone ++ names)

abbrev is_rooted : Text → Bool
is_rooted path = has_prefix path (codes "/")

-- What package path/filepath says of its functions: an absolute path stays one when it is cleaned or
-- its links are followed, and the relative path between two absolute clean paths leads up from the
-- one to a directory that they share, and down to the other.
pub record PathLaws (fs : FileSystem) : Type 0 where
  pub abs_rooted : (path abs : Text) → fs.abs path ≡ some abs → is_rooted (fs.clean abs) ≡ true
  pub links_rooted :
      (path real : Text)
      → is_rooted path ≡ true
      → fs.eval_symlinks path ≡ some real
      → is_rooted (fs.clean real) ≡ true
  pub rel_names :
      (base target rel : Text)
      → is_rooted (fs.clean base) ≡ true
      → is_rooted (fs.clean target) ≡ true
      → fs.rel (fs.clean base) (fs.clean target) ≡ some rel
      → (shared gone names : List Text) × (names_of (fs.clean base) ≡ shared ++ gone)
        × (names_of (fs.clean target) ≡ shared ++ names)
        × (rel ≡ rel_text gone names)

-- What the links of an absolute path lead to, or the path itself where that is not known.
abbrev pub LeadsTo : FileSystem → Text → Text → Type 0
LeadsTo fs abs place =
    ((real : Text) × (fs.eval_symlinks (fs.clean abs) ≡ some real) × (place ≡ fs.clean real))
    ⊎ (fs.eval_symlinks (fs.clean abs) ≡ none) × (place ≡ fs.clean abs)

-- A root and a path lead to places of which the second is below the first.
pub record IsWithin (fs : FileSystem) (root path : Text) : Type 0 where
  pub named : trim_space root ≢ []
  pub root_abs : Text
  pub path_abs : Text
  pub root_place : Text
  pub path_place : Text
  pub root_absolute : fs.abs root ≡ some root_abs
  pub path_absolute : fs.abs path ≡ some path_abs
  pub root_leads : LeadsTo fs root_abs root_place
  pub path_leads : LeadsTo fs path_abs path_place
  pub below : IsBelow root_place path_place

up_leads_out :
    (gone names : List Text) (g : Text) → leads_out (some (rel_text (g ∷ gone) names)) ≡ true
unfolding leads_out text_eq has_prefix join
up_leads_out [] [] g = refl
up_leads_out [] (name ∷ names) g = refl
up_leads_out (h ∷ gone) names g = refl

stays-IsBelow :
    (shared gone names : List Text) (root target rel : Text)
    → names_of root ≡ shared ++ gone
    → names_of target ≡ shared ++ names
    → rel ≡ rel_text gone names
    → leads_out (some rel) ≡ false
    → IsBelow root target
stays-IsBelow shared [] names root target rel r t e stays =
    (names, t ∙ ap (λ l. l ++ names) (sym (r ∙ append-nil shared)))
stays-IsBelow shared (g ∷ gone) names root target rel r t e stays =
    let out = up_leads_out gone names g in absurd (cc)

-- A root is not blank.
not_blank : (t : Text) → is_empty t ≡ false → t ≢ []
unfolding is_empty
not_blank t h e = ground arith

module _ (fs : FileSystem) (laws : PathLaws fs) where
  -- Where a path leads is a clean absolute path.
  place :
      (abs : Text)
      → is_rooted (fs.clean abs) ≡ true
      → (q : Text) × (evaluated fs abs ≡ fs.clean q)
        × (is_rooted (fs.clean q) ≡ true)
        × LeadsTo fs abs (evaluated fs abs)
  unfolding evaluated key_from
  place abs rooted = elim (Option-cases (fs.eval_symlinks (fs.clean abs))) [
    | inl broken ↦ (
      abs,
      ap (key_from fs (fs.clean abs)) broken,
      rooted,
      inr (broken, ap (key_from fs (fs.clean abs)) broken),
    )
    | inr (real, e) ↦ (
      real,
      ap (key_from fs (fs.clean abs)) e,
      laws.links_rooted (fs.clean abs) real rooted e,
      inl (real, e, ap (key_from fs (fs.clean abs)) e),
    )
  ]

  rel-IsBelow :
      (root target q r : Text) (rel : Option Text)
      → root ≡ fs.clean q
      → target ≡ fs.clean r
      → is_rooted (fs.clean q) ≡ true
      → is_rooted (fs.clean r) ≡ true
      → fs.rel root target ≡ rel
      → leads_out rel ≡ false
      → IsBelow root target
  unfolding leads_out
  rel-IsBelow root target q r none a b c d e stays = absurd (cc)
  rel-IsBelow root target q r (some rel) a b c d e stays =
      let (shared, gone, names, x, y, z) =
        laws.rel_names q r rel c d
          (ap (λ v. fs.rel v (fs.clean r)) (sym a) ∙ ap (λ v. fs.rel root v) (sym b) ∙ e) in
      stays-IsBelow shared gone names root target rel (ap names_of a ∙ x) (ap names_of b ∙ y) z
        stays

  within-IsWithin :
      (root path : Text) (a b : Option Text)
      → trim_space root ≢ []
      → fs.abs root ≡ a
      → fs.abs path ≡ b
      → within fs a b ≡ true
      → IsWithin fs root path
  unfolding within
  within-IsWithin root path none b n x y w = absurd (cc)
  within-IsWithin root path (some a) none n x y w = absurd (cc)
  within-IsWithin root path (some a) (some b) n x y w =
      let (q, qe, q_rooted, q_leads) = place a (laws.abs_rooted root a x) in
      let (r, re, r_rooted, r_leads) = place b (laws.abs_rooted path b y) in
      record {
        named = n;
        root_abs = a;
        path_abs = b;
        root_place = evaluated fs a;
        path_place = evaluated fs b;
        root_absolute = x;
        path_absolute = y;
        root_leads = q_leads;
        path_leads = r_leads;
        below =
            rel-IsBelow (evaluated fs a) (evaluated fs b) q r
              (fs.rel (evaluated fs a) (evaluated fs b)) qe re q_rooted r_rooted refl
              (ground arith);
      }

  ensure_within_root-IsWithin :
      (root path : Text) → ensure_within_root fs root path ≡ true → IsWithin fs root path
  unfolding ensure_within_root
  ensure_within_root-IsWithin root path h = elim (Bool-cases (is_empty (trim_space root))) [
    | inl blank ↦ absurd (ground arith)
    | inr named ↦
        within-IsWithin root path (fs.abs root) (fs.abs path) (not_blank (trim_space root) named)
          refl refl (ground arith)
  ]

-- A path is within one of the roots.
abbrev pub InRoots : FileSystem → List Text → Text → Type 0
InRoots fs roots path =
    (before : List Text) × (after : List Text) × (root : Text) × (roots ≡ before ++ root ∷ after)
    × IsWithin fs root path

some_root-InRoots :
    (fs : FileSystem)
    → PathLaws fs
    → (roots : List Text) (path : Text) → some_root fs roots path ≡ true
    → InRoots fs roots path
unfolding some_root
some_root-InRoots fs laws [] path e = absurd (cc)
some_root-InRoots fs laws (root ∷ roots) path e =
    elim (Bool-cases (ensure_within_root fs root path)) [
      | inl here ↦ ([], roots, root, refl, ensure_within_root-IsWithin fs laws root path here)
      | inr not_here ↦
          let (before, after, r, same, there) =
            some_root-InRoots fs laws roots path (ground arith) in
          (root ∷ before, after, r, ap (λ l. root ∷ l) same, there)
    ]

pub validate_paths-InRoots :
    (fs : FileSystem)
    → PathLaws fs
    → (roots paths : List Text) → validate_paths fs roots paths ≡ none
    → All (InRoots fs roots) paths
unfolding validate_paths
validate_paths-InRoots fs laws roots [] e = tt
validate_paths-InRoots fs laws roots (path ∷ paths) e =
    elim (Bool-cases (some_root fs roots path)) [
      | inl inside ↦ (
        some_root-InRoots fs laws roots path inside,
        validate_paths-InRoots fs laws roots paths (ground arith),
      )
      | inr outside ↦ absurd (ground arith)
    ]
