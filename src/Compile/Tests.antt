-- ===== src/Compile/Tests.antt =====
-- The value `'(a (1 "b") 'nil)` read.
use ak_lisp.Base.{◌++◌, true, false, some, [], ◌∷◌, ◌≡◌, refl, arith}
use ak_lisp.Values.{Value, value, no_values, more, vt_symbol, vt_number, vt_string, vt_list, vt_nil}
use ak_lisp.Compile.Parse.{parse_value, rbrace}
use ak_lisp.Compile.Parse.RoundTrip.{written, is_datum, parse_value-written}

abbrev quoted_list : Value
quoted_list = value true (
    vt_list true (
      more (value false (vt_symbol 3)) (
        more
          (value false (
            vt_list true (
              more (value false (vt_number 1))
                (more (value false (vt_string (98 ∷ []))) no_values))))
          (more (value true vt_nil) no_values))))

parse_value-written_example :
    parse_value 20 (written quoted_list ++ (rbrace ∷ [])) ≡ some (some quoted_list, rbrace ∷ [])
unfolding written is_datum
parse_value-written_example = parse_value-written quoted_list 20 (rbrace ∷ []) refl (omega arith)
