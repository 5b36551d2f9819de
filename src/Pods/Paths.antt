-- ===== src/Pods/Paths.antt =====
-- internal/pods/pods.go: the name of the network namespace.
use pierre.Base.{
  if◌then◌else◌, ◌∙◌, ap, eq_text_iff, ◌==◌, ◌≡◌, ◌≢◌, refl, false, List, [], ◌∷◌, ◌++◌, Text,
  eq_text, arith, All,
}
use pierre.Pods.{
  split_from, slash, path_file, Namespace, network_namespace_of, network_namespace_type,
}

split_from-base : (file base : Text) → All (λ c. c ≢ 47) base → split_from file base ≡ file
unfolding split_from
split_from-base file [] h = refl
split_from-base file (c ∷ cs) (n, h) = ground (arith, n, split_from-base file cs h)

split_from-dir : (file dir base : Text) → split_from file (dir ++ 47 ∷ base) ≡ split_from base base
unfolding split_from
split_from-dir file [] base = refl
split_from-dir file (c ∷ dir) base =
    split_from-dir (if c == slash then dir ++ 47 ∷ base else file) dir base

-- The file of a path is what stands behind its last slash.
path_file-append : (dir base : Text) → All (λ c. c ≢ 47) base → path_file (dir ++ 47 ∷ base) ≡ base
unfolding path_file
path_file-append dir base h =
    split_from-dir (dir ++ 47 ∷ base) dir base ∙ split_from-base base base h

-- The path that is taken is that of the first network namespace.
first_path :
    (before after : List Namespace) (n : Namespace)
    → All (λ (m : Namespace). eq_text m.type network_namespace_type ≡ false) before
    → n.type ≡ network_namespace_type
    → network_namespace_of (before ++ n ∷ after) ≡ path_file n.path
unfolding network_namespace_of
first_path [] after n h e = ground (arith, e, eq_text_iff n.type network_namespace_type)
first_path (m ∷ before) after n (k, h) e = ground (arith, k, first_path before after n h e)

-- The namespace that is found is that of the first network namespace that is listed: the part of
-- its path behind the last slash.
pub network_namespace_of_first :
    (before after : List Namespace) (n : Namespace) (dir base : Text)
    → All (λ (m : Namespace). eq_text m.type network_namespace_type ≡ false) before
    → n.type ≡ network_namespace_type
    → n.path ≡ dir ++ 47 ∷ base
    → All (λ c. c ≢ 47) base
    → network_namespace_of (before ++ n ∷ after) ≡ base
network_namespace_of_first before after n dir base h e p b =
    first_path before after n h e ∙ ap path_file p ∙ path_file-append dir base b
