-- ===== src/Prelude/Value.antt =====
-- JavaScript values that the services take as `unknown`: numbers, texts, JSON.
use Prim.Native.Nat.{ℕ, zero, suc, ◌+◌, ◌/◌, ◌%◌}
use Prim.Native.Char.{code}
use Prim.Native.String.{String}
use mathlib.Core.Path.{◌≡◌, refl}
use mathlib.Core.Logic.{◌↔◌}
use mathlib.Core.Bool.{Bool, true, false, not, ◌&&◌, ◌||◌}
use mathlib.Core.Option.{Option, none, some}
use mathlib.Core.List.{List, [], ◌∷◌, ◌++◌}
use native.Mathlib.Omega.{arith}
use pft_backend.Prelude.Tests.{leb, ◌==◌, if◌then◌else◌}
use pft_backend.Prelude.Int.{ℤ, pos, negsuc, ltb_ℤ, pos_part, neg_part}

-- A text by its code units.
abbrev pub Text : Type 0
Text = List ℕ

abbrev pub codes : String → Text
codes String.[] = []
codes (String.◌∷◌ c s) = code c ∷ codes s

abbrev pub text_eq : Text → Text → Bool
text_eq [] [] = true
text_eq [] (d ∷ ds) = false
text_eq (c ∷ cs) [] = false
text_eq (c ∷ cs) (d ∷ ds) = (c == d) && text_eq cs ds

pub text_eq_iff : (s t : Text) → (text_eq s t ≡ true) ↔ (s ≡ t)
text_eq_iff [] [] = ground arith
text_eq_iff [] (d ∷ ds) = ground arith
text_eq_iff (c ∷ cs) [] = ground arith
text_eq_iff (c ∷ cs) (d ∷ ds) = ground (arith, text_eq_iff cs ds)

pub text_eq_refl : (s : Text) → text_eq s s ≡ true
text_eq_refl s = (text_eq_iff s s).1 refl

-- The white space that `String.prototype.trim` removes.
abbrev pub is_space : ℕ → Bool
is_space c =
    (leb 9 c && leb c 13)
    || (c == 32)
    || (c == 0xa0)
    || (c == 0x1680)
    || (leb 0x2000 c && leb c 0x200a)
    || (c == 0x2028)
    || (c == 0x2029)
    || (c == 0x202f)
    || (c == 0x205f)
    || (c == 0x3000)
    || (c == 0xfeff)

abbrev pub trim_start : Text → Text
trim_start [] = []
trim_start (c ∷ cs) = if is_space c then trim_start cs else c ∷ cs

abbrev pub is_blank : Text → Bool
is_blank [] = true
is_blank (c ∷ cs) = is_space c && is_blank cs

abbrev pub trim_end : Text → Text
trim_end [] = []
trim_end (c ∷ cs) = if is_blank (c ∷ cs) then [] else c ∷ trim_end cs

unfoldable pub trim : Text → Text
trim s = trim_end (trim_start s)

abbrev pub is_empty : Text → Bool
is_empty [] = true
is_empty (c ∷ cs) = false

-- A number: a count of hundredths, or one of the values that are not finite.
pub data Number : Type 0 where
  fin : ℤ → Number
  nan infinity neg_infinity : Number

abbrev pub is_finite : Number → Bool
is_finite (fin z) = true
is_finite nan = false
is_finite infinity = false
is_finite neg_infinity = false

-- `Number.isInteger`
abbrev pub is_integer : Number → Bool
is_integer (fin z) = ((pos_part z + neg_part z) % 100) == 0
is_integer nan = false
is_integer infinity = false
is_integer neg_infinity = false

-- `n < 0`; false at NaN
abbrev pub is_negative : Number → Bool
is_negative (fin z) = ltb_ℤ z (pos 0)
is_negative nan = false
is_negative infinity = false
is_negative neg_infinity = true

-- `n > 0`; false at NaN
abbrev pub is_positive : Number → Bool
is_positive (fin z) = ltb_ℤ (pos 0) z
is_positive nan = false
is_positive infinity = true
is_positive neg_infinity = false

abbrev pub is_zero : Number → Bool
is_zero (fin z) = (pos_part z + neg_part z) == 0
is_zero nan = false
is_zero infinity = false
is_zero neg_infinity = false

-- The hundredths of a number that is known to be finite and not negative.
abbrev pub hundredths : Number → ℕ
hundredths (fin z) = pos_part z
hundredths nan = 0
hundredths infinity = 0
hundredths neg_infinity = 0

-- What a text or an array gives under `Number(·)`, and an array under `String(·)`, is kept beside
-- it, so that a statement for all values covers every reading.
mutual
  pub data Value : Type 0 where
    undefined null : Value
    boolean : Bool → Value
    number : Number → Value
    text : Text → Number → Value
    array : Values → Number → Text → Value
    object : Fields → Value

  pub data Values : Type 0 where
    nil : Values
    cons : Value → Values → Values

  pub data Fields : Type 0 where
    end : Fields
    field : Text → Value → Fields → Fields

-- `row.key`, `undefined` if there is none
abbrev pub get_field : Text → Fields → Value
get_field k end = undefined
get_field k (field j v fs) = if text_eq j k then v else get_field k fs

-- `Number(v)`
abbrev pub to_number : Value → Number
to_number undefined = nan
to_number null = fin (pos 0)
to_number (boolean b) = fin (pos (if b then 100 else 0))
to_number (number n) = n
to_number (text s n) = n
to_number (array vs n s) = n
to_number (object fs) = nan

-- `v ?? d`
abbrev pub or_default : Value → Value → Value
or_default undefined d = d
or_default null d = d
or_default v d = v

abbrev pub as_array : Value → Option Values
as_array (array vs n s) = some vs
as_array v = none

-- `v && typeof v === 'object' && !Array.isArray(v)`, with the fields
abbrev pub as_object : Value → Option Fields
as_object (object fs) = some fs
as_object v = none

-- The decimal digits of a number, with enough fuel.
digits_from : ℕ → ℕ → Text
digits_from zero n = []
digits_from (suc fuel) n =
    let high = digits_from fuel (n / 10) in
    let low : Text = (b'0' + n % 10) ∷ [] in if n / 10 == 0 then low else high ++ low

unfoldable pub digits : ℕ → Text
unfolding digits_from
digits n = digits_from (n + 1) n

abbrev hundredths_text : ℕ → Text
hundredths_text n =
    if n == 0
    then []
    else if n % 10 == 0
    then b'.' ∷ digits (n / 10)
    else b'.' ∷ (digits (n / 10) ++ digits (n % 10))

-- `String(n)`, below 10²¹
unfoldable pub number_text : Number → Text
number_text (fin (pos n)) = digits (n / 100) ++ hundredths_text (n % 100)
number_text (fin (negsuc n)) = b'-' ∷ (digits (suc n / 100) ++ hundredths_text (suc n % 100))
number_text nan = codes "NaN"
number_text infinity = codes "Infinity"
number_text neg_infinity = codes "-Infinity"

-- `String(v)`, with what `Number(·)` reads in it
abbrev pub stringify : Value → Value
stringify undefined = text (codes "undefined") nan
stringify null = text (codes "null") nan
stringify (boolean b) = text (if b then codes "true" else codes "false") nan
stringify (number n) = text (number_text n) n
stringify (text s n) = text s n
stringify (array vs n s) = text s n
stringify (object fs) = text (codes "[object Object]") nan

abbrev pub text_of : Value → Text
text_of (text s n) = s
text_of v = []

-- `s.trim()`; what `Number(·)` reads does not depend on the white space at the ends
abbrev pub trim_value : Value → Value
trim_value (text s n) = text (trim s) n
trim_value v = v

abbrev pub is_empty_text : Value → Bool
is_empty_text (text s n) = is_empty s
is_empty_text v = false

abbrev pub empty_array : Value
empty_array = array nil (fin (pos 0)) []

abbrev pub joined_objects : Values → Text
joined_objects nil = []
joined_objects (cons v nil) = codes "[object Object]"
joined_objects (cons v (cons w vs)) = codes "[object Object]," ++ joined_objects (cons w vs)

-- An array of objects: `Number(·)` reads 0 in the empty one, and no number in any other.
abbrev pub array_of_objects : Values → Value
array_of_objects nil = empty_array
array_of_objects (cons v vs) = array (cons v vs) nan (joined_objects (cons v vs))

abbrev pub all_values : (Value → Bool) → Values → Bool
all_values p nil = true
all_values p (cons v vs) = p v && all_values p vs

-- `typeof v === 'string'` and not empty once trimmed; a finite number
abbrev pub is_filled_text : Value → Bool
is_filled_text (text s n) = not (is_empty (trim s))
is_filled_text v = false

abbrev pub is_finite_number : Value → Bool
is_finite_number (number n) = is_finite n
is_finite_number v = false
