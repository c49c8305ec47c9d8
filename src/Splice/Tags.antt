-- ===== src/Splice/Tags.antt =====
-- The tags of objects: saltyrtc/splice/splice.py.
--
-- An object is of a class that inherits from `SpliceMixin`, which has tags, or a container, or any
-- other value. Which of the others have a class in `registered_cls` is told by `Plain`: numbers and
-- texts have one, a `bool` is never converted, and any other value has none.
pub mod Reached
pub mod Arguments
pub mod Construction
pub mod Conversion
pub mod Deep
pub mod Attached
pub mod Tests
use saltyrtc_server_python.Prelude.{
  ℕ, zero, suc, Bool, true, false, not, ◌&&◌, List, [], ◌∷◌, if◌then◌else◌,
}
use saltyrtc_server_python.Splice.Taint.{empty_taint, union}

pub record Tags : Type 0 where
  pub trusted : Bool
  pub synthesized : Bool
  pub taints : ℕ

pub data Plain : Type 0 where
  registered boolean unregistered : Plain

mutual
  pub data Object : Type 0 where
    mixin : Tags → Object
    mapping : Entries → Object
    sequence : Elements → Object
    plain : Plain → Object

  -- The elements of a list, a tuple or a set.
  pub data Elements : Type 0 where
    no_elements : Elements
    element : Object → Elements → Elements

  -- The keys and values of a dictionary.
  pub data Entries : Type 0 where
    no_entries : Entries
    entry : Object → Object → Entries → Entries

-- `check_tag`, without `check_synthesis`
unfoldable mutual
  pub check_tag : ℕ → Object → Bool
  check_tag depth (mixin tags) = tags.trusted
  check_tag zero _ = true
  check_tag (suc depth) (mapping entries) = check_entries depth entries
  check_tag (suc depth) (sequence elements) = check_elements depth elements
  check_tag (suc depth) (plain p) = true

  pub check_elements : ℕ → Elements → Bool
  check_elements depth no_elements = true
  check_elements depth (element o rest) =
      let later = check_elements depth rest in if not (check_tag depth o) then false else later

  pub check_entries : ℕ → Entries → Bool
  check_entries depth no_entries = true
  check_entries depth (entry k v rest) =
      let later = check_entries depth rest in
      if not (check_tag depth k) then false else if not (check_tag depth v) then false else later

-- The answer for a part of a container: it is the answer for the container if the part is
-- synthesized; otherwise the other parts `rest` are asked, and `t` tells whether all are trusted.
abbrev pub unless_synthesized : Bool × Bool → (Bool → Bool × Bool) → Bool → Bool × Bool
unless_synthesized (trusted, true) rest t = (trusted, true)
unless_synthesized (trusted, false) rest t = rest (t && trusted)

-- `check_tag` with `check_synthesis`: whether the object is trusted, and whether it is synthesized.
unfoldable mutual
  pub check_tags : ℕ → Object → Bool × Bool
  check_tags depth (mixin tags) = (tags.trusted, tags.synthesized)
  check_tags zero _ = (true, false)
  check_tags (suc depth) (mapping entries) = check_entries_tags depth entries true
  check_tags (suc depth) (sequence elements) = check_elements_tags depth elements true
  check_tags (suc depth) (plain p) = (true, false)

  pub check_elements_tags : ℕ → Elements → Bool → Bool × Bool
  check_elements_tags depth no_elements t = (t, false)
  check_elements_tags depth (element o rest) t =
      unless_synthesized (check_tags depth o) (check_elements_tags depth rest) t

  pub check_entries_tags : ℕ → Entries → Bool → Bool × Bool
  check_entries_tags depth no_entries t = (t, false)
  check_entries_tags depth (entry k v rest) t =
      unless_synthesized (check_tags depth k)
        (unless_synthesized (check_tags depth v) (check_entries_tags depth rest)) t

abbrev pub default_depth : ℕ
default_depth = 2

-- The loop of `contains_untrusted_arguments`, over the arguments and then the keyword arguments
unfoldable pub any_untrusted : List Object → Bool → Bool × Bool
unfolding check_tags
any_untrusted [] untrusted = (untrusted, false)
any_untrusted (arg ∷ args) untrusted =
    let (trusted, synthesized) = check_tags default_depth arg in
    let later = any_untrusted args (if trusted then untrusted else true) in
    if synthesized then (true, true) else later

unfoldable pub contains_untrusted_arguments : List Object → Bool × Bool
unfolding any_untrusted
contains_untrusted_arguments args = any_untrusted args false

-- `is_tainted_by`
unfoldable mutual
  pub is_tainted_by : ℕ → Object → ℕ
  is_tainted_by depth (mixin tags) = tags.taints
  is_tainted_by zero _ = empty_taint
  is_tainted_by (suc depth) (mapping entries) = entries_taints depth entries empty_taint
  is_tainted_by (suc depth) (sequence elements) = elements_taints depth elements empty_taint
  is_tainted_by (suc depth) (plain p) = empty_taint

  pub elements_taints : ℕ → Elements → ℕ → ℕ
  elements_taints depth no_elements taints = taints
  elements_taints depth (element o rest) taints =
      elements_taints depth rest (union taints (is_tainted_by depth o))

  pub entries_taints : ℕ → Entries → ℕ → ℕ
  entries_taints depth no_entries taints = taints
  entries_taints depth (entry k v rest) taints =
      entries_taints depth rest
        (union (union taints (is_tainted_by depth k)) (is_tainted_by depth v))

unfoldable pub all_taints : List Object → ℕ → ℕ
unfolding is_tainted_by union
all_taints [] taints = taints
all_taints (arg ∷ args) taints = all_taints args (union taints (is_tainted_by default_depth arg))

unfoldable pub union_argument_taints : List Object → ℕ
unfolding all_taints
union_argument_taints args = all_taints args empty_taint
