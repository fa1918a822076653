-- ===== src/Health/Json.antt =====
-- What encoding/json makes of a text for `interface{}`, and the assertions that the collectors make
-- of it: `v.(T)` panics where v is of another type, and an index with a missing key gives nil.
use iaa_s_exporter.Prelude.{String, Bool, Option, none, some, List, [], ◌∷◌, ◌==◌, if◌then◌else◌}
use Prim.Native.String.{◌++◌ as concat}

-- A number stands by its text. An object is a Go map, with one entry for each key.
mutual
  pub data Slice : Type 0 where
    no_items : Slice
    item : Value → Slice → Slice

  pub data Object : Type 0 where
    no_keys : Object
    entry : String → Value → Object → Object

  pub data Value : Type 0 where
    text number : String → Value
    boolean : Bool → Value
    slice : Slice → Value
    object : Object → Value
    nil : Value

-- An assertion that panics is `none`.
infixl 5 ◌>>=◌
abbrev pub ◌>>=◌ : {A B : Type 0} → Option A → (A → Option B) → Option B
none >>= f = none
some a >>= f = f a

-- m[key]
unfoldable pub find : String → Object → Value
find key no_keys = nil
find key (entry at v rest) = if at == key then v else find key rest

-- v.(map[string]interface{})[key]
unfoldable pub member : String → Value → Option Value
unfolding find
member key (object fields) = some (find key fields)
member key nil = none
member key (boolean b) = none
member key (number n) = none
member key (text s) = none
member key (slice xs) = none

-- v.(string)
abbrev pub as_text : Value → Option String
as_text (text s) = some s
as_text nil = none
as_text (boolean b) = none
as_text (number n) = none
as_text (slice xs) = none
as_text (object fields) = none

-- v.(float64)
abbrev pub as_num : Value → Option String
as_num (number n) = some n
as_num nil = none
as_num (boolean b) = none
as_num (text s) = none
as_num (slice xs) = none
as_num (object fields) = none

abbrev pub list_of : Slice → List Value
list_of no_items = []
list_of (item v xs) = v ∷ list_of xs

-- v.([]interface{})
abbrev pub as_items : Value → Option (List Value)
as_items (slice xs) = some (list_of xs)
as_items nil = none
as_items (boolean b) = none
as_items (number n) = none
as_items (text s) = none
as_items (object fields) = none

unfoldable pub text_at : String → Value → Option String
unfolding member
text_at key v = member key v >>= as_text

unfoldable pub num_at : String → Value → Option String
unfolding member
num_at key v = member key v >>= as_num

unfoldable pub items_at : String → Value → Option (List Value)
unfolding member
items_at key v = member key v >>= as_items

-- The texts under a key of each of the values.
unfoldable pub texts_at : String → List Value → Option (List String)
unfolding text_at
texts_at key [] = some []
texts_at key (v ∷ vs) = do s ← text_at key v; rest ← texts_at key vs; some (s ∷ rest)

-- strings.Join(texts, ",")
unfoldable pub join : List String → String
join [] = ""
join (s ∷ []) = s
join (s ∷ t ∷ rest) = concat s (concat "," (join (t ∷ rest)))
