-- ===== src/Py/Path.antt =====
-- `posixpath.normpath`.
use os_autoinst_scripts.Prelude.{
  ◌≡◌, refl, Bool, ◌&&◌, ◌||◌, not, List, [], ◌∷◌, ◌++◌, if◌then◌else◌,
}
use os_autoinst_scripts.Py.Str.{Str, codes, eqb, starts_with, split, join}

abbrev is_dotdot : Str → Bool
is_dotdot comp = eqb comp (codes "..")

-- The loop over the components, with those kept so far from the last to the first.
unfoldable pub norm_comps : Bool → List Str → List Str → List Str
unfolding eqb
norm_comps absolute kept [] = kept
norm_comps absolute [] (comp ∷ comps) =
    let same = norm_comps absolute [] comps in
    let more = norm_comps absolute (comp ∷ []) comps in
    if eqb comp [] || eqb comp (codes ".")
    then same
    else if not (is_dotdot comp) || not absolute
    then more
    else same
norm_comps absolute (k ∷ kept) (comp ∷ comps) =
    let same = norm_comps absolute (k ∷ kept) comps in
    let more = norm_comps absolute (comp ∷ k ∷ kept) comps in
    let popped = norm_comps absolute kept comps in
    if eqb comp [] || eqb comp (codes ".")
    then same
    else if not (is_dotdot comp) || is_dotdot k
    then more
    else popped

abbrev back : List Str → List Str → List Str
back done [] = done
back done (k ∷ kept) = back (k ∷ done) kept

-- Two slashes at the start stay, three or more become one.
unfoldable initial_slashes : Str → Str
unfolding starts_with
initial_slashes path =
    if starts_with path (codes "//") && not (starts_with path (codes "///"))
    then codes "//"
    else if starts_with path (codes "/")
    then codes "/"
    else []

abbrev or_dot : Str → Str
or_dot [] = codes "."
or_dot (c ∷ s) = c ∷ s

unfoldable pub normpath : Str → Str
unfolding norm_comps initial_slashes starts_with split join
normpath path = or_dot (
    initial_slashes path
    ++ join (codes "/") (back [] (norm_comps (starts_with path (codes "/")) [] (split b'/' path))))

normpath_test : normpath (codes "/a//b/./c/../../d.pm") ≡ codes "/a/d.pm"
unfolding normpath
normpath_test = refl

normpath_relative_test : normpath (codes "../x/../..") ≡ codes "../.."
unfolding normpath
normpath_relative_test = refl
