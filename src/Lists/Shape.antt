-- ===== src/Lists/Shape.antt =====
-- When a header and a heap are a list of cells.
use ak_lisp.Base.{◌^◌, ◌<◌, ◌≡◌, false, [], arith, length, refl}
use ak_lisp.Lists.{Header, init}
use ak_lisp.Lists.Memory.{Heap}
use ak_lisp.Lists.Links.{Cells, has, first, last_of, Distinct, Chain, nil}

pub record IsList (h : Heap) (l : Header) (xs : Cells) : Type 0 where
  pub head : l.li_head ≡ first xs 0
  pub last : l.li_last ≡ last_of 0 xs
  pub count : l.li_count ≡ length xs
  pub small : length xs < 2 ^ 32
  pub chain : Chain h 0 0 xs
  pub distinct : Distinct xs
  pub no_null : has 0 xs ≡ false

-- The header of `akl_init_list` is the empty list in every heap.
pub init-IsList : (h : Heap) → IsList h init []
init-IsList h = record {
  head = refl;
  last = refl;
  count = refl;
  small = omega arith;
  chain = nil;
  distinct = tt;
  no_null = refl;
}
