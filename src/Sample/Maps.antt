-- ===== src/Sample/Maps.antt =====
-- `FieldsEqual`: two maps are equal exactly if every key has equal fields in both, or none in both.
use cluster_recorder.Prelude.{
  ◌≡◌, refl, sym, ◌∙◌, All, ◌↔◌, inl, inr, true, false, String, arith, eq_iff, str_eq, Option, none,
  some, [], ◌∷◌, length, Bool-cases, is_some,
}
use mathlib.Core.Path.{subst}
use cluster_recorder.Dict.{Dict, get, IsMap}
use cluster_recorder.Dict.Laws.{Within, Within-symm, length-le_of_Within, get_fresh}
use cluster_recorder.Sample.Encoding.{IsExact, marshal}
use cluster_recorder.Sample.{Field, equal_entry, fields_equal_loop, fields_equal}
use cluster_recorder.Sample.Equal.{SameReading, equal_iff}
use cluster_recorder.Sample.Stored.{
  encode, decode, encode_fields, decode_fields, equal-decode-encode,
}

-- The two entries of one key agree.
abbrev pub SameEntry : Option Field → Option Field → Type 0
SameEntry none none = Unit
SameEntry (some f) (some g) = SameReading f g
SameEntry none (some g) = ⊥
SameEntry (some f) none = ⊥

abbrev pub SameMap : Dict Field → Dict Field → Type 0
SameMap a b = (k : String) → SameEntry (get a k) (get b k)

-- What the loop checks of one key of `a`.
abbrev Covers : Option Field → Option Field → Type 0
Covers none g = Unit
Covers (some f) g = SameEntry (some f) g

SameEntry-of_equal_entry :
    (g : Option Field) (f : Field) → equal_entry g f ≡ true → SameEntry (some f) g
unfolding equal_entry
SameEntry-of_equal_entry none f h = absurd (cc)
SameEntry-of_equal_entry (some g) f h = let r = (equal_iff f g).0 h in r

equal_entry-of_SameEntry :
    (g : Option Field) (f : Field) → SameEntry (some f) g → equal_entry g f ≡ true
unfolding equal_entry
equal_entry-of_SameEntry none f h = elim h [ ]
equal_entry-of_SameEntry (some g) f h = (equal_iff f g).1 h

loop-Covers :
    (a b : Dict Field) → fields_equal_loop a b ≡ true → (k : String) → Covers (get a k) (get b k)
unfolding fields_equal_loop get
loop-Covers [] b h k = tt
loop-Covers ((j, f) ∷ a) b h k = elim (Bool-cases (equal_entry (get b j) f)) [
  | inl e ↦ elim (Bool-cases (str_eq j k)) [
    | inl same ↦ rw same (
        subst (λ i. Covers (some f) (get b i)) ((eq_iff j k).0 same)
          (SameEntry-of_equal_entry (get b j) f e))
    | inr other ↦ rw other (loop-Covers a b (ground arith) k)
  ]
  | inr e ↦ absurd (ground arith)
]

Covers-head :
    (j : String) (f : Field) (a b : Dict Field)
    → ((k : String) → Covers (get ((j, f) ∷ a) k) (get b k))
    → SameEntry (some f) (get b j)
unfolding get
Covers-head j f a b h = rw ((eq_iff j j).1 refl) at (h j)

Covers-tail :
    (j : String) (f : Field) (a b : Dict Field)
    → IsMap ((j, f) ∷ a)
    → ((k : String) → Covers (get ((j, f) ∷ a) k) (get b k))
    → (k : String) → Covers (get a k) (get b k)
unfolding get
Covers-tail j f a b d h k = elim (Bool-cases (str_eq j k)) [
  | inl same ↦
      let none_there : get a k ≡ none =
        subst (λ i. get a i ≡ none) ((eq_iff j k).0 same) (get_fresh a j d.0) in
      rw none_there tt
  | inr other ↦ rw other at (h k)
]

loop-of_SameMap :
    (a b : Dict Field)
    → IsMap a
    → ((k : String) → Covers (get a k) (get b k))
    → fields_equal_loop a b ≡ true
unfolding fields_equal_loop
loop-of_SameMap [] b d h = refl
loop-of_SameMap ((j, f) ∷ a) b d h =
    rw (equal_entry-of_SameEntry (get b j) f (Covers-head j f a b h))
      (loop-of_SameMap a b d.1 (Covers-tail j f a b d h))

Covers-Within : (a b : Dict Field) → ((k : String) → Covers (get a k) (get b k)) → Within a b
Covers-Within a b h k m = has_covered (get a k) (get b k) (h k) m
  where
    has_covered : (x y : Option Field) → Covers x y → is_some x ≡ true → is_some y ≡ true
    has_covered none y c m = absurd (cc)
    has_covered (some f) none c m = absurd c
    has_covered (some f) (some g) c m = refl

SameMap-of_Covers :
    (a b : Dict Field)
    → IsMap a
    → length a ≡ length b
    → ((k : String) → Covers (get a k) (get b k))
    → SameMap a b
SameMap-of_Covers a b d e h k =
    same (get a k) (get b k) (h k) (Within-symm a b d e (Covers-Within a b h) k)
  where
    same : (x y : Option Field) → Covers x y → (is_some y ≡ true → is_some x ≡ true) → SameEntry x y
    same none none c w = tt
    same none (some g) c w = absurd (cc (w refl))
    same (some f) y c w = c

Covers-of_SameEntry : (x y : Option Field) → SameEntry x y → Covers x y
Covers-of_SameEntry none y s = tt
Covers-of_SameEntry (some f) y s = s

has_same : (x y : Option Field) → SameEntry x y → is_some x ≡ is_some y
has_same none none s = refl
has_same (some f) (some g) s = refl
has_same none (some g) s = absurd s
has_same (some f) none s = absurd s

-- `FieldsEqual` of two maps holds exactly if each key is in both, with equal fields, or in neither.
pub fields_equal_iff :
    (a b : Dict Field) → IsMap a → IsMap b → (fields_equal a b ≡ true) ↔ SameMap a b
unfolding fields_equal
fields_equal_iff a b da db = (
  λ h.
      let e : length a ≡ length b = ground arith in
      let loop : fields_equal_loop a b ≡ true = ground arith in
      SameMap-of_Covers a b da e (loop-Covers a b loop),
  λ s.
      let ab = length-le_of_Within a b da (λ k m. sym (has_same (get a k) (get b k) (s k)) ∙ m) in
      let ba = length-le_of_Within b a db (λ k m. has_same (get a k) (get b k) (s k) ∙ m) in
      let loop = loop-of_SameMap a b da (λ k. Covers-of_SameEntry (get a k) (get b k) (s k)) in
      ground arith,
)

-- No value of the map has a number above 2^53.
abbrev pub AllExact : Dict Field → Type 0
AllExact m = All (λ (e : String × Field). IsExact (marshal e.1.value)) m

get-decode_fields :
    (m : Dict Field) (k : String)
    → AllExact m
    → SameEntry (get m k) (get (decode_fields (encode_fields m)) k)
unfolding get decode_fields encode_fields
get-decode_fields [] k h = tt
get-decode_fields ((j, f) ∷ m) k h = elim (Bool-cases (str_eq j k)) [
  | inl same ↦ rw same ((equal_iff f (decode (encode f))).0 (equal-decode-encode f h.0))
  | inr other ↦ rw other (get-decode_fields m k h.1)
]

All-decode_fields :
    (P : String → Type 0) (m : Dict Field)
    → All (λ (e : String × Field). P e.0) m
    → All (λ (e : String × Field). P e.0) (decode_fields (encode_fields m))
unfolding decode_fields encode_fields
All-decode_fields P [] h = h
All-decode_fields P (e ∷ m) h = (h.0, All-decode_fields P m h.1)

pub decode_fields-IsMap : (m : Dict Field) → IsMap m → IsMap (decode_fields (encode_fields m))
unfolding decode_fields encode_fields
decode_fields-IsMap [] d = d
decode_fields-IsMap ((j, f) ∷ m) d =
    (All-decode_fields (λ i. str_eq j i ≡ false) m d.0, decode_fields-IsMap m d.1)

-- A map without numbers above 2^53 that has been stored and read back is equal to itself as it was.
pub fields_equal-stored :
    (m : Dict Field)
    → IsMap m
    → AllExact m
    → fields_equal m (decode_fields (encode_fields m)) ≡ true
fields_equal-stored m d h =
    (fields_equal_iff m (decode_fields (encode_fields m)) d (decode_fields-IsMap m d)).1
      (λ k. get-decode_fields m k h)
