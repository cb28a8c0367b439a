-- ===== src/Sample/Encoding.antt =====
-- internal/sample/field.go: the dynamic values of a Field, and the JSON documents that
-- `json.Marshal` and `json.Unmarshal` turn them into and read them from.
use cluster_recorder.Prelude.{
  ℕ, zero, suc, ◌+◌, ◌*◌, ◌/◌, ◌%◌, ◌≤◌, ltb, leb, ◌||◌, if◌then◌else◌, ◌≡◌, ◌∙◌, refl, ap, ◌↔◌,
  Bool, true, false, ◌&&◌, String, List, [], ◌∷◌, arith, ◌==◌, str_eq, eq_iff,
}

mutual
  pub data Json : Type 0 where
    null : Json
    boolean : Bool → Json
    number : ℕ → Json
    text : String → Json
    array : Jsons → Json

  pub data Jsons : Type 0 where
    nil : Jsons
    cons : Json → Jsons → Jsons

-- What an `any` holds: `nil`, what the samplers put there (bool, int, string, []string), and what
-- decoding a document puts there (bool, float64, string, []any). The numbers that are sampled are
-- whole and not negative. A float64 is given by the number that it is.
mutual
  pub data Value : Type 0 where
    null : Value
    boolean : Bool → Value
    int : ℕ → Value
    float64 : ℕ → Value
    text : String → Value
    texts : List String → Value
    list : Values → Value

  pub data Values : Type 0 where
    nil : Values
    cons : Value → Values → Values

-- The whole numbers up to here are all float64.
abbrev pub max_exact : ℕ
max_exact = 9007199254740992

-- The power of 2 that leaves 53 bits of a number below 2^1024.
unfoldable pub scale : ℕ → ℕ → ℕ
scale zero n = 1
scale (suc fuel) n = let rest = scale fuel (n / 2) in if ltb n max_exact then 1 else 2 * rest

-- `m` halves up if what is left is more than half of `p`, or half and `m` is odd.
unfoldable pub half_even : ℕ → ℕ → ℕ → ℕ
half_even m left p =
    if ltb p (2 * left) || (p == 2 * left && m % 2 == 1) then (m + 1) * p else m * p

-- The float64 that is nearest to a number, and of two such the even one.
unfoldable pub rounded : ℕ → ℕ
unfolding scale half_even
rounded n = let p = scale 971 n in half_even (n / p) (n % p) p

unfoldable pub nearest_double : ℕ → ℕ
nearest_double n = if leb n max_exact then n else rounded n

-- The first of the powers of 10, from a large one down, at which the rounded number is the float64.
unfoldable pub shortest_from : ℕ → ℕ → ℕ → ℕ
unfolding nearest_double
shortest_from zero p n = n
shortest_from (suc fuel) p n =
    let rest = shortest_from fuel (p / 10) n in
    let c = ((n + p / 2) / p) * p in if nearest_double c == n then c else rest

-- The digits that `encoding/json` writes of a float64 below 10^21: the fewest that read back as it, the
-- rest are 0.
unfoldable pub shortest : ℕ → ℕ
shortest n = if leb n max_exact then n else shortest_from 20 100000000000000000000 n

marshal_texts : List String → Jsons
marshal_texts [] = Jsons.nil
marshal_texts (s ∷ ss) = Jsons.cons (Json.text s) (marshal_texts ss)

-- The document of a value: what `json.Marshal` writes.
unfoldable mutual
  unfolding marshal_texts shortest

  pub marshal : Value → Json
  marshal Value.null = Json.null
  marshal (Value.boolean b) = Json.boolean b
  marshal (Value.int n) = Json.number n
  marshal (Value.float64 n) = Json.number (shortest n)
  marshal (Value.text s) = Json.text s
  marshal (Value.texts ss) = Json.array (marshal_texts ss)
  marshal (Value.list vs) = Json.array (marshal_list vs)

  pub marshal_list : Values → Jsons
  marshal_list Values.nil = Jsons.nil
  marshal_list (Values.cons v vs) = Jsons.cons (marshal v) (marshal_list vs)

-- What `json.Unmarshal` puts into an `any`.
unfoldable mutual
  unfolding nearest_double

  pub unmarshal : Json → Value
  unmarshal Json.null = Value.null
  unmarshal (Json.boolean b) = Value.boolean b
  unmarshal (Json.number n) = Value.float64 (nearest_double n)
  unmarshal (Json.text s) = Value.text s
  unmarshal (Json.array js) = Value.list (unmarshal_list js)

  pub unmarshal_list : Jsons → Values
  unmarshal_list Jsons.nil = Values.nil
  unmarshal_list (Jsons.cons j js) = Values.cons (unmarshal j) (unmarshal_list js)

-- Two documents have the same bytes.
unfoldable mutual
  pub same_bytes : Json → Json → Bool
  same_bytes Json.null Json.null = true
  same_bytes (Json.boolean true) (Json.boolean true) = true
  same_bytes (Json.boolean false) (Json.boolean false) = true
  same_bytes (Json.number m) (Json.number n) = m == n
  same_bytes (Json.text s) (Json.text t) = str_eq s t
  same_bytes (Json.array js) (Json.array ks) = same_bytes_list js ks
  same_bytes _ _ = false

  pub same_bytes_list : Jsons → Jsons → Bool
  same_bytes_list Jsons.nil Jsons.nil = true
  same_bytes_list (Jsons.cons j js) (Jsons.cons k ks) = same_bytes j k && same_bytes_list js ks
  same_bytes_list _ _ = false

if_true : (b : Bool) (m n : ℕ) → b ≡ true → (if b then m else n) ≡ m
if_true true m n h = refl
if_true false m n h = absurd (cc)

nearest_double_exact : (n : ℕ) → n ≤ max_exact → nearest_double n ≡ n
unfolding nearest_double
nearest_double_exact n h = if_true (leb n max_exact) n (rounded n) (ground (arith, h))

shortest_exact : (n : ℕ) → n ≤ max_exact → shortest n ≡ n
unfolding shortest
shortest_exact n h =
    if_true (leb n max_exact) n (shortest_from 20 100000000000000000000 n) (ground (arith, h))

-- No number of the document is above 2^53.
abbrev mutual
  pub IsExact : Json → Type 0
  IsExact (Json.number n) = n ≤ max_exact
  IsExact (Json.array js) = AreExact js
  IsExact _ = Unit

  pub AreExact : Jsons → Type 0
  AreExact Jsons.nil = Unit
  AreExact (Jsons.cons j js) = IsExact j × AreExact js

mutual
  unfolding marshal unmarshal

  -- Decoding and encoding again gives the same document.
  marshal-unmarshal_mutual : (j : Json) → IsExact j → marshal (unmarshal j) ≡ j
  marshal-unmarshal_mutual Json.null h = refl
  marshal-unmarshal_mutual (Json.boolean b) h = refl
  marshal-unmarshal_mutual (Json.number n) h =
      ap Json.number (ap shortest (nearest_double_exact n h) ∙ shortest_exact n h)
  marshal-unmarshal_mutual (Json.text s) h = refl
  marshal-unmarshal_mutual (Json.array js) h = ap Json.array (marshal_list-unmarshal_list js h)

  marshal_list-unmarshal_list : (js : Jsons) → AreExact js → marshal_list (unmarshal_list js) ≡ js
  marshal_list-unmarshal_list Jsons.nil h = refl
  marshal_list-unmarshal_list (Jsons.cons j js) h =
      cc (marshal-unmarshal_mutual j h.0, marshal_list-unmarshal_list js h.1)

pub marshal-unmarshal : (j : Json) → IsExact j → marshal (unmarshal j) ≡ j
marshal-unmarshal j h = marshal-unmarshal_mutual j h

pub texts-IsExact : (ss : List String) → IsExact (marshal (Value.texts ss))
unfolding marshal marshal_texts
texts-IsExact [] = tt
texts-IsExact (s ∷ ss) = (tt, texts-IsExact ss)

mutual
  unfolding same_bytes

  eq_of_same_bytes : (j k : Json) → same_bytes j k ≡ true → j ≡ k
  eq_of_same_bytes Json.null Json.null h = refl
  eq_of_same_bytes (Json.boolean b) (Json.boolean c) h = ground arith
  eq_of_same_bytes (Json.number m) (Json.number n) h = ground arith
  eq_of_same_bytes (Json.text s) (Json.text t) h = ground (arith, eq_iff s t)
  eq_of_same_bytes (Json.array js) (Json.array ks) h = ap Json.array (eq_of_same_bytes_list js ks h)
  eq_of_same_bytes j k h = ground arith

  eq_of_same_bytes_list : (js ks : Jsons) → same_bytes_list js ks ≡ true → js ≡ ks
  eq_of_same_bytes_list Jsons.nil Jsons.nil h = refl
  eq_of_same_bytes_list (Jsons.cons j js) (Jsons.cons k ks) h =
      ground (arith, eq_of_same_bytes j k, eq_of_same_bytes_list js ks)
  eq_of_same_bytes_list js ks h = ground arith

mutual
  unfolding same_bytes

  same_bytes-refl_mutual : (j : Json) → same_bytes j j ≡ true
  same_bytes-refl_mutual Json.null = refl
  same_bytes-refl_mutual (Json.boolean b) = ground arith
  same_bytes-refl_mutual (Json.number n) = ground arith
  same_bytes-refl_mutual (Json.text s) = ground (arith, eq_iff s s)
  same_bytes-refl_mutual (Json.array js) = same_bytes_list_refl js

  same_bytes_list_refl : (js : Jsons) → same_bytes_list js js ≡ true
  same_bytes_list_refl Jsons.nil = refl
  same_bytes_list_refl (Jsons.cons j js) =
      ground (arith, same_bytes-refl_mutual j, same_bytes_list_refl js)

-- The comparison of documents decides their equality.
pub same_bytes_iff : (j k : Json) → (same_bytes j k ≡ true) ↔ (j ≡ k)
same_bytes_iff j k = (eq_of_same_bytes j k, λ e. rw e (same_bytes-refl_mutual k))

-- A value is nil exactly when its document is null.
unfoldable pub is_nil : Value → Bool
is_nil Value.null = true
is_nil _ = false
