-- ===== src/Configuration/File.antt =====
-- Whole configuration files.
use mathlib.Core.List.{append_assoc}
use mathlib.Core.Path.{subst}
use orb_weaver.Configuration.Fields.{Field, name, put}
use orb_weaver.Configuration.Line.{assignment, parse_line-put}
use orb_weaver.Configuration.{
  Configuration, CfgEntry, parse_line, parse_value, parse_lines, parse_configuration, fgets,
  max_field_length, store_at, value_loop, number_loop, cache, max_value_length, is_digit,
  validate_field_name, name_loop,
}
use orb_weaver.Memory.{Bytes, codes, read}
use orb_weaver.Prelude.{
  ℕ, suc, ◌^◌, ◌<◌, ◌≡◌, refl, Bool, true, false, not, Option, none, some, List, [], ◌∷◌, ◌++◌, map,
  arith, ok, ◌>>=◌, Ensures, Ensures-bind, Ensures-if, if◌then◌else◌, ◌==◌, ltb, length, drop,
  replicate,
}
use orb_weaver.StringTools.Digits.{decimal}

-- A line of a configuration file.
abbrev pub render : Field × ℕ → Bytes
render (f, v) = codes (name f) ++ b' ' ∷ b'=' ∷ b' ' ∷ (decimal v ++ b'\n' ∷ [])

-- The assignments, one after the other.
abbrev pub put_all : List (Field × ℕ) → Configuration → Configuration
put_all [] c = c
put_all ((f, v) ∷ items) c = put_all items (put f v c)

abbrev pub InRange : List (Field × ℕ) → Type 0
InRange [] = Unit
InRange ((f, v) ∷ items) = (0 < v) × (v < 10 ^ 19) × InRange items

fgets-assignment :
    (f : Field) (v : ℕ) (line : Bytes)
    → fgets (render (f, v)) line
      ≡ assignment f (decimal v) (0 ∷ drop (suc (length (render (f, v)))) line)
fgets-assignment f v line = simp append_assoc

parse_lines-put_all :
    (items : List (Field × ℕ)) (line : Bytes) (c : Configuration)
    → InRange items
    → parse_lines (map render items) line c ≡ ok (true, put_all items c)
unfolding parse_lines
parse_lines-put_all [] line c h = refl
parse_lines-put_all ((f, v) ∷ items) line c (positive, small, h) =
    rw
      (
        fgets-assignment f v line,
        parse_line-put f v (0 ∷ drop (suc (length (render (f, v)))) line) c positive small,
      )
      (parse_lines-put_all items _ (put f v c) h)

-- A file of `name = value` lines, for any of the four fields, `max_num_routes` included, the values
-- from 1 to 10^19 - 1, is read in full: the configuration gets every value, a later one of a field in
-- place of an earlier one.
pub parse_configuration-put_all :
    (items : List (Field × ℕ)) (c : Configuration)
    → InRange items
    → parse_configuration true (some (map render items)) c ≡ ok (true, put_all items c)
unfolding parse_configuration
parse_configuration-put_all items c h = parse_lines-put_all items (replicate max_field_length 0) c h

-- No field is 0.
pub record IsPositive (c : Configuration) : Type 0 where
  pub max_connections : 0 < c.max_connections
  pub port : 0 < c.port
  pub num_cores : 0 < c.num_cores
  pub max_num_routes : 0 < c.max_num_routes

abbrev pub Keeps : Bool × Configuration → Type 0
Keeps (_, c) = IsPositive c

store_at-IsPositive :
    (offset v : ℕ) (c : Configuration)
    → IsPositive c
    → 0 < v
    → Ensures IsPositive (store_at offset v c)
unfolding store_at
store_at-IsPositive offset v c h ne = ground arith

parse_number-IsPositive :
    (e : CfgEntry) (c : Configuration) (number : Option ℕ)
    → IsPositive c
    → Ensures Keeps (elim number [
      | none ↦ ok (false, c)
      | some n ↦ if n == 0 then ok (false, c) else do c' ← store_at e.offset n c; ok (true, c')
    ])
parse_number-IsPositive e c none h = h
parse_number-IsPositive e c (some n) h =
    Ensures-if Keeps (n == 0) _ _ (λ _. h)
      (λ ne. Ensures-bind Keeps (store_at e.offset n c) _ (λ c' run.
        subst (Ensures IsPositive) run (store_at-IsPositive e.offset n c h (ground arith))))

parse_value-IsPositive :
    (e : CfgEntry) (line : Bytes) (c : Configuration)
    → IsPositive c
    → Ensures Keeps (parse_value e line c)
unfolding parse_value
parse_value-IsPositive e line c h = Ensures-bind Keeps (read line 1) _ (λ equals _.
    Ensures-if Keeps (not (equals == b'=')) _ _ (λ _. h)
      (λ _. Ensures-bind Keeps (read line 2) _ (λ space _.
        Ensures-if Keeps (not (space == b' ')) _ _ (λ _. h)
          (λ _. Ensures-bind Keeps (read line 3) _ (λ digit _.
            Ensures-if Keeps (not (is_digit digit)) _ _ (λ _. h)
              (λ _. Ensures-bind Keeps (value_loop max_value_length (drop 3 line) []) _ (λ value _.
                Ensures-bind Keeps (number_loop (cache max_value_length value) 0) _
                  (λ number _. parse_number-IsPositive e c number h))))))))

entry-IsPositive :
    (entry : Option CfgEntry) (rest : Bytes) (c : Configuration)
    → IsPositive c
    → Ensures Keeps (elim entry [ none ↦ ok (false, c) | some e ↦ parse_value e rest c ])
entry-IsPositive none rest c h = h
entry-IsPositive (some e) rest c h = parse_value-IsPositive e rest c h

parse_line-IsPositive :
    (line : Bytes) (c : Configuration) → IsPositive c → Ensures Keeps (parse_line line c)
unfolding parse_line
parse_line-IsPositive line c h =
    Ensures-bind Keeps (name_loop max_field_length line []) _ (λ named _. at named)
  where
    at :
        (named : Option (Bytes × Bytes))
        → Ensures Keeps (elim named [
          | none ↦ ok (false, c)
          | some (name, rest) ↦ if ltb (length name) 2 then ok (true, c) else do
            entry ← validate_field_name (cache max_field_length name)
            elim entry [ none ↦ ok (false, c) | some e ↦ parse_value e rest c ]
        ])
    at none = h
    at (some (name, rest)) =
        Ensures-if Keeps (ltb (length name) 2) _ _ (λ _. h)
          (λ _.
            Ensures-bind Keeps (validate_field_name (cache max_field_length name)) _
              (λ entry _. entry-IsPositive entry rest c h))

parse_lines-IsPositive :
    (contents : List Bytes) (line : Bytes) (c : Configuration)
    → IsPositive c
    → Ensures Keeps (parse_lines contents line c)
unfolding parse_lines
parse_lines-IsPositive [] line c h = h
parse_lines-IsPositive (content ∷ contents) line c h =
    Ensures-bind Keeps (parse_line (fgets content line) c) _ (λ r run.
      let kept : IsPositive r.1 =
        subst (Ensures Keeps) run (parse_line-IsPositive (fgets content line) c h) in
      Ensures-if Keeps r.0 _ _ (λ _. parse_lines-IsPositive contents (fgets content line) r.1 kept)
        (λ _. kept))

-- Whatever the file holds, a run of `_parse_configuration` that returns leaves every field
-- positive, if every field was positive before.
pub parse_configuration-IsPositive :
    (folder : Bool) (file : Option (List Bytes)) (c : Configuration)
    → IsPositive c
    → Ensures Keeps (parse_configuration folder file c)
unfolding parse_configuration
parse_configuration-IsPositive false file c h = h
parse_configuration-IsPositive true none c h = h
parse_configuration-IsPositive true (some contents) c h =
    parse_lines-IsPositive contents (replicate max_field_length 0) c h
