-- ===== src/Ros.antt =====
-- What the nodes take from ROS, as an interface: how the name that a program gives for a service or a
-- topic is expanded.
use Prim.Native.String.append
use Prim.Native.Char.{code}
use Prim.Native.String.{[], ◌∷◌}
use text.Mathlib.Text.{◌==◌ as str_eq}
use packml_ros.Base.{
  arith, if◌then◌else◌, ◌≡◌, refl, ap, ◌∙◌, Bool, true, false, String, ◌<>◌, not, ◌&&◌, ◌==◌,
}

-- A name that is neither absolute nor private starts with no "/" (47) and no "~" (126).
unfoldable pub is_relative : String → Bool
is_relative [] = false
is_relative (c ∷ s) = not (code c == 47) && not (code c == 126)

pub is_relative-append : (s t : String) → is_relative s ≡ true → is_relative (s <> t) ≡ true
unfolding is_relative
is_relative-append [] t h = ground (arith, h)
is_relative-append (c ∷ s) t h = ap is_relative (append.cons c s t) ∙ h

-- `prefix` is a namespace up to the name of a node in it; `expand` is given the namespace, the name
-- of the node, and the name that it uses.
pub record RosNames : Type 0 where
  pub prefix : String → String
  pub expand : String → String → String → String
  pub expand-absolute : (ns n x : String) → expand ns n ("/" <> x) ≡ "/" <> x
  pub expand-private : (ns n x : String) → expand ns n ("~/" <> x) ≡ prefix ns <> (n <> ("/" <> x))
  pub expand-relative : (ns n x : String) → is_relative x ≡ true → expand ns n x ≡ prefix ns <> x

-- Names as ROS documents them.
pub namespace_prefix : String → String
namespace_prefix ns = if str_eq ns "/" then "/" else ns <> "/"

pub expand_in : String → String → String → String
unfolding namespace_prefix
expand_in ns n [] = namespace_prefix ns
expand_in ns n (c ∷ s) =
    if code c == 47
    then c ∷ s
    else if code c == 126
    then namespace_prefix ns <> (n <> s)
    else namespace_prefix ns <> (c ∷ s)

pub expand_in-absolute : (ns n x : String) → expand_in ns n ("/" <> x) ≡ "/" <> x
unfolding expand_in
expand_in-absolute ns n x = rw (append.cons "/" [] x) refl

pub expand_in-private :
    (ns n x : String) → expand_in ns n ("~/" <> x) ≡ namespace_prefix ns <> (n <> ("/" <> x))
unfolding expand_in
expand_in-private ns n x = rw (append.cons "~" "/" x) refl

pub expand_in-relative :
    (ns n x : String) → is_relative x ≡ true → expand_in ns n x ≡ namespace_prefix ns <> x
unfolding expand_in is_relative
expand_in-relative ns n [] h = ground (arith, h)
expand_in-relative ns n (c ∷ s) h = ground (arith, h)

unfoldable pub documented_names : RosNames
unfolding namespace_prefix expand_in
documented_names = record {
  prefix = namespace_prefix;
  expand = expand_in;
  expand-absolute = expand_in-absolute;
  expand-private = expand_in-private;
  expand-relative = expand_in-relative;
}
