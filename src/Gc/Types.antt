-- ===== src/Gc/Types.antt =====
-- The state of the collector of src/gc.c: the types, their pools, and what the objects refer to.
-- The pools of a type are their list from `gt_pool_head` on; the last one is `gt_pool_last`.
use ak_lisp.Base.{ℕ, Bool, false, Option, List, [], get_or, set}
use ak_lisp.Gc.Pool.{Pool}

-- A pool by its place in the list, and a slot.
abbrev pub Place : Type 0
Place = ℕ × ℕ

-- `base_type_markers`; `no_marker` is NULL. A type that an extension registers with a marker of its
-- own is not modelled.
pub data Marker : Type 0 where
  mark_value : Marker
  mark_variable : Marker
  mark_list : Marker
  mark_list_entry : Marker
  mark_function : Marker
  mark_udata : Marker
  no_marker : Marker

pub record GcType : Type 0 where
  pub gt_marker_fn : Marker
  pub pools : List Pool

-- What a marker reads of an object: the list of a value of type AKL_VT_LIST, the value of a variable,
-- the entries of a list, and the value of an entry whose `gc_le_is_obj` is set. `none` is NULL, no
-- such reference, or one of the static values, which no marker touches.
pub data Object : Type 0 where
  value_object : Option Place → Object
  variable_object : Option Place → Object
  list_object : List Place → Object
  entry_object : Option Place → Object
  other_object : Object

pub record Gc : Type 0 where
  pub use_gc : Bool
  pub last_was_mark : Bool
  pub types : List GcType
  pub objects : ℕ → Place → Object

abbrev pub no_pool : Pool
no_pool = record { count = 0; freemap = []; marks = [] }

abbrev pub no_type : GcType
no_type = record { gt_marker_fn = no_marker; pools = [] }

abbrev pub type_of : Gc → ℕ → GcType
type_of g tid = get_or g.types tid no_type

abbrev pub set_type : Gc → ℕ → GcType → Gc
set_type g tid t = record g { types = set g.types tid t }

abbrev pub pool_of : Gc → ℕ → ℕ → Pool
pool_of g tid k = get_or (type_of g tid).pools k no_pool

abbrev pub set_pool : Gc → ℕ → ℕ → Pool → Gc
set_pool g tid k p =
    set_type g tid (record (type_of g tid) { pools = set (type_of g tid).pools k p })

-- AKL_GC_IS_MARKED
unfoldable pub is_marked : Gc → ℕ → Place → Bool
is_marked g tid (k, i) = get_or (pool_of g tid k).marks i false

-- AKL_GC_SET_MARK
unfoldable pub set_mark : Bool → ℕ → Place → Gc → Gc
set_mark m tid (k, i) g =
    let p = pool_of g tid k in set_pool g tid k (record p { marks = set p.marks i m })
