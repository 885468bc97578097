-- ===== src/Json.antt =====
-- The JavaScript values that the host helper reads and writes, and the properties of its objects.
-- A text is a Unicode string without lone surrogates: the frame parser refuses those.
pub mod Text
use repo_assessment_kit.Prelude.{
  ℕ, String, Bool, true, false, not, eqb, Option, none, some, List, [], ◌∷◌, ◌==◌, includes,
}
use repo_assessment_kit.Prelude.Dict.{lookup}
use repo_assessment_kit.Prelude.Result.{Result, ok, throws, thrown}

-- A number: an integer whose decimal text has no exponent, `negative n` being -(n + 1); or any
-- other double, known by the text that `String(x)` gives ("0.5", "1e+21", "NaN").
pub data Number : Type 0 where
  natural negative : ℕ → Number
  other : String → Number

mutual
  -- The own properties of an object, in the order of `Object.entries`.
  pub data Fields : Type 0 where
    no_fields : Fields
    property : (name : String) (value : Value) (others : Fields) → Fields

  pub data Items : Type 0 where
    no_items : Items
    item : (first : Value) (others : Items) → Items

  pub data Value : Type 0 where
    undefined null : Value
    obj : Fields → Value
    arr : Items → Value
    str : String → Value
    num : Number → Value
    bool : Bool → Value

abbrev pub items : Items → List Value
items no_items = []
items (item v vs) = v ∷ items vs

-- `Object.entries`.
abbrev pub entries : Fields → List (String × Value)
entries no_fields = []
entries (property k v fs) = (k, v) ∷ entries fs

abbrev pub fields_of : List (String × Value) → Fields
fields_of [] = no_fields
fields_of ((k, v) ∷ fs) = property k v (fields_of fs)

-- `Object.keys`.
abbrev pub keys : Fields → List String
keys no_fields = []
keys (property k v fs) = k ∷ keys fs

abbrev or_undefined : Option Value → Value
or_undefined none = undefined
or_undefined (some v) = v

-- `object[key]` and `object?.[key]`: an own property, or `undefined`. Arrays, texts and numbers have
-- none of the properties that the program reads.
unfoldable pub get : Value → String → Value
unfolding lookup
get (obj fs) key = or_undefined (lookup key (entries fs))
get _ key = undefined

-- `value === text`.
abbrev pub is_text : Value → String → Bool
is_text (str s) t = s == t
is_text _ t = false

-- `value === undefined`.
abbrev pub is_undefined : Value → Bool
is_undefined undefined = true
is_undefined _ = false

-- `Boolean(value)`.
abbrev pub is_truthy : Value → Bool
is_truthy undefined = false
is_truthy null = false
is_truthy (obj fs) = true
is_truthy (arr vs) = true
is_truthy (str s) = not (s == "")
is_truthy (num (natural n)) = not (eqb n 0)
is_truthy (num (negative n)) = true
is_truthy (num (other t)) = not (t == "NaN")
is_truthy (bool b) = b

-- `[…].includes(value)`, over texts.
abbrev pub one_of : List String → Value → Bool
one_of allowed (str s) = includes allowed s
one_of allowed _ = false

-- `isRecord`: an object that is neither `null` nor an array.
abbrev pub is_record : Value → Bool
is_record (obj fs) = true
is_record _ = false

-- The members that every plain object inherits from `Object.prototype`, which reading
-- `object[key]` finds where there is no own property.
abbrev pub prototype_members : List String
prototype_members =
    "constructor" ∷ "hasOwnProperty" ∷ "isPrototypeOf" ∷ "propertyIsEnumerable" ∷ "toLocaleString"
    ∷ "toString" ∷ "valueOf" ∷ "__defineGetter__" ∷ "__defineSetter__" ∷ "__lookupGetter__"
    ∷ "__lookupSetter__" ∷ "__proto__" ∷ []

unfoldable pub inherited : String → Bool
inherited key = includes prototype_members key

-- `value.key` where the program does not write `?.`: reading a property of `undefined` or `null`
-- throws a `TypeError`.
unfoldable pub read : Value → String → Result Value
unfolding get
read undefined key = throws thrown
read null key = throws thrown
read v key = ok (get v key)
