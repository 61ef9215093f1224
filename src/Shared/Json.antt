-- ===== src/Shared/Json.antt =====
-- QJsonValue and QJsonObject as the program uses them: the data of a packet, and the accessors with
-- the defaults that they give at a missing key or at a value of another kind.
use messenger_walkie_talkie.Prelude.{
  ℕ, zero, suc, ◌+◌, ◌-◌, ◌*◌, ◌^◌, String, Bool, false, ◌&&◌, ◌||◌, List, [], ◌∷◌, reverse, Option,
  none, some, codes, nat_eq, ltb, leb, if◌then◌else◌, ◌==◌, string_eq, ◌≡◌, refl, arith, eq_iff,
}
use messenger_walkie_talkie.Prelude.Int.{ℤ, pos, negsuc}

mutual
  pub data Value : Type 0 where
    null : Value
    bool : Bool → Value
    num : ℤ → Value
    str : String → Value
    arr : Items → Value
    obj : JsonObject → Value

  pub data Items : Type 0 where
    nil : Items
    cons : Value → Items → Items

  pub data JsonObject : Type 0 where
    end : JsonObject
    field : String → Value → JsonObject → JsonObject

-- An initializer list of fields.
abbrev pub object : List (String × Value) → JsonObject
object [] = end
object ((k, v) ∷ fs) = field k v (object fs)

abbrev pub array : List Value → Items
array [] = nil
array (v ∷ vs) = cons v (array vs)

-- An array of texts.
abbrev pub texts : List String → Items
texts [] = nil
texts (s ∷ ss) = cons (str s) (texts ss)

-- packet.value(key)
abbrev pub value : JsonObject → String → Value
value end k = null
value (field j v o) k = if j == k then v else value o k

-- packet[key] = v
abbrev pub set_field : JsonObject → String → Value → JsonObject
set_field end k v = field k v end
set_field (field j w o) k v = if j == k then field k v o else field j w (set_field o k v)

pub value-set_field :
    (o : JsonObject) (k j : String) (v : Value)
    → value (set_field o k v) j ≡ (if k == j then v else value o j)
value-set_field end k j v = refl
value-set_field (field i w o) k j v =
    ground (arith, eq_iff i k, eq_iff i j, eq_iff k j, value-set_field o k j v)

abbrev pub to_string : Value → String
to_string (str s) = s
to_string _ = ""

abbrev is_space : ℕ → Bool
is_space code = code == 32 || (leb 9 code && leb code 13)

abbrev skip_spaces : List ℕ → List ℕ
skip_spaces [] = []
skip_spaces (c ∷ cs) = let rest = skip_spaces cs in if is_space c then rest else c ∷ cs

abbrev digits_from : ℕ → List ℕ → Option ℕ
digits_from n [] = some n
digits_from n (c ∷ cs) =
    let rest = digits_from (n * 10 + (c - b'0')) cs in
    if leb b'0' c && leb c b'9' then rest else none

-- At least one digit.
abbrev decimal : List ℕ → Option ℕ
decimal [] = none
decimal (c ∷ cs) = digits_from 0 (c ∷ cs)

abbrev in_range : ℕ → Option ℕ → ℕ
in_range limit none = 0
in_range limit (some n) = if leb n limit then n else 0

abbrev negated : ℕ → ℤ
negated zero = pos 0
negated (suc n) = negsuc n

abbrev signed_decimal : List ℕ → ℤ
signed_decimal [] = pos 0
signed_decimal (c ∷ cs) =
    if c == b'-'
    then negated (in_range (2 ^ 63) (decimal cs))
    else if c == b'+'
    then pos (in_range (2 ^ 63 - 1) (decimal cs))
    else pos (in_range (2 ^ 63 - 1) (decimal (c ∷ cs)))

-- QString::toLongLong: a decimal number with or without a sign, between spaces, in the range of qint64;
-- any other text gives 0.
unfoldable pub text_to_long_long : String → ℤ
text_to_long_long text = signed_decimal (reverse (skip_spaces (reverse (skip_spaces (codes text)))))

-- toVariant().toLongLong()
abbrev pub to_long_long : Value → ℤ
to_long_long (num n) = n
to_long_long (bool b) = if b then pos 1 else pos 0
to_long_long (str text) = text_to_long_long text
to_long_long _ = pos 0

-- A number outside the range of int gives the default.
abbrev pub to_int_or : Value → ℤ → ℤ
to_int_or (num (pos n)) d = if ltb n (2 ^ 31) then pos n else d
to_int_or (num (negsuc n)) d = if ltb n (2 ^ 31) then negsuc n else d
to_int_or _ d = d

-- The conversion of an int to quint32.
abbrev pub to_quint32 : ℤ → ℕ
to_quint32 (pos n) = n
to_quint32 (negsuc n) = 2 ^ 32 - suc n

abbrev pub to_bool : Value → Bool
to_bool (bool b) = b
to_bool _ = false

-- toArray(), each element by toString()
abbrev item_texts : Items → List String
item_texts nil = []
item_texts (cons v vs) = to_string v ∷ item_texts vs

abbrev pub to_texts : Value → List String
to_texts (arr vs) = item_texts vs
to_texts _ = []
