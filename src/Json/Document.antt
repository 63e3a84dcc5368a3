-- ===== src/Json/Document.antt =====
-- A JSON document and its text, independent of the writer; and that driving the writer along a
-- document appends exactly that text.
use mtop.Base.{
  Bool, true, false, if◌then◌else◌, ◌≡◌, refl, ap, ◌∙◌, List, [], ◌∷◌, ◌++◌, append-nil,
  append_assoc, Bytes, str,
}
use mtop.Json.Writer.{
  JsonWriter, new_writer, token, quoted, begin_object, end_object, begin_array, end_array, key,
  value_prefix, member_prefix, write, push_first,
}

-- `atom` is a number or a literal name, by its text.
mutual
  pub data Json : Type 0 where
    text : Bytes → Json
    atom : Bytes → Json
    arr : Items → Json
    obj : Fields → Json

  pub data Items : Type 0 where
    nil : Items
    cons : Json → Items → Items

  pub data Fields : Type 0 where
    end : Fields
    field : Bytes → Json → Fields → Fields

abbrev comma : Bool → Bytes
comma first = if first then [] else b',' ∷ []

unfoldable mutual
  pub render : Json → Bytes
  render (text s) = quoted s
  render (atom a) = a
  render (arr xs) = b'[' ∷ (render_items true xs ++ (b']' ∷ []))
  render (obj fs) = b'{' ∷ (render_fields true fs ++ (b'}' ∷ []))

  pub render_items : Bool → Items → Bytes
  render_items first nil = []
  render_items first (cons x xs) = comma first ++ (render x ++ render_items false xs)

  pub render_fields : Bool → Fields → Bytes
  render_fields first end = []
  render_fields first (field k v fs) =
      comma first ++ ((quoted k ++ (b':' ∷ render v)) ++ render_fields false fs)

-- The calls that write a document.
unfoldable mutual
  pub drive : Json → JsonWriter → JsonWriter
  drive (text s) w = token (quoted s) w
  drive (atom a) w = token a w
  drive (arr xs) w = end_array (drive_items xs (begin_array w))
  drive (obj fs) w = end_object (drive_fields fs (begin_object w))

  pub drive_items : Items → JsonWriter → JsonWriter
  drive_items nil w = w
  drive_items (cons x xs) w = drive_items xs (drive x w)

  pub drive_fields : Fields → JsonWriter → JsonWriter
  drive_fields end w = w
  drive_fields (field k v fs) w = drive_fields fs (drive v (key k w))

-- A writer in which a value may stand next: behind a key, or among the members of an open bracket.
abbrev keyed : Bytes → List Bool → JsonWriter
keyed o st = record { out = o; first_stack = st; expecting_value = true }

abbrev pub inside : Bytes → List Bool → JsonWriter
inside o st = record { out = o; first_stack = st; expecting_value = false }

-- Every value is written behind the same prefix.
drive-value_prefix :
    (v : Json) (w w' : JsonWriter) → value_prefix w ≡ value_prefix w' → drive v w ≡ drive v w'
unfolding drive begin_object begin_array token
drive-value_prefix (text s) w w' e = ap (write (quoted s)) e
drive-value_prefix (atom a) w w' e = ap (write a) e
drive-value_prefix (arr xs) w w' e =
    ap (λ u. end_array (drive_items xs (push_first (write (str "[") u)))) e
drive-value_prefix (obj fs) w w' e =
    ap (λ u. end_object (drive_fields fs (push_first (write (str "{") u)))) e

value_prefix-inside :
    (o : Bytes) (b : Bool) (st : List Bool)
    → value_prefix (inside o (b ∷ st)) ≡ value_prefix (keyed (o ++ comma b) (false ∷ st))
unfolding value_prefix
value_prefix-inside o true st = rw append-nil
value_prefix-inside o false st = refl

key-inside :
    (k o : Bytes) (b : Bool) (st : List Bool)
    → key k (inside o (b ∷ st)) ≡ keyed ((o ++ comma b) ++ (quoted k ++ (b':' ∷ []))) (false ∷ st)
unfolding key member_prefix
key-inside k o true st = rw append-nil
key-inside k o false st = refl

mutual
  unfolding drive render token begin_object end_object begin_array end_array str

  drive-keyed :
      (v : Json) (o : Bytes) (st : List Bool) → drive v (keyed o st) ≡ inside (o ++ render v) st
  drive-keyed (text s) o st = refl
  drive-keyed (atom a) o st = refl
  drive-keyed (arr xs) o st =
      let (c, e) = drive_items-inside xs (o ++ (b'[' ∷ [])) true st in
      ap end_array e ∙ simp append_assoc
  drive-keyed (obj fs) o st =
      let (c, e) = drive_fields-inside fs (o ++ (b'{' ∷ [])) true st in
      ap end_object e ∙ simp append_assoc

  drive_items-inside :
      (xs : Items) (o : Bytes) (b : Bool) (st : List Bool)
      → (c : Bool) × (drive_items xs (inside o (b ∷ st)) ≡ inside (o ++ render_items b xs) (c ∷ st))
  drive_items-inside nil o b st = (b, rw append-nil)
  drive_items-inside (cons x xs) o b st =
      let first =
        drive-value_prefix x _ _ (value_prefix-inside o b st)
        ∙ drive-keyed x (o ++ comma b) (false ∷ st) in
      let (c, e) = drive_items-inside xs ((o ++ comma b) ++ render x) false st in
      (c, ap (drive_items xs) first ∙ e ∙ simp append_assoc)

  drive_fields-inside :
      (fs : Fields) (o : Bytes) (b : Bool) (st : List Bool)
      → (c : Bool) × (drive_fields fs (inside o (b ∷ st))
          ≡ inside (o ++ render_fields b fs) (c ∷ st))
  drive_fields-inside end o b st = (b, rw append-nil)
  drive_fields-inside (field k v fs) o b st =
      let o' = (o ++ comma b) ++ (quoted k ++ (b':' ∷ [])) in
      let first = ap (drive v) (key-inside k o b st) ∙ drive-keyed v o' (false ∷ st) in
      let (c, e) = drive_fields-inside fs (o' ++ render v) false st in
      (c, ap (drive_fields fs) first ∙ e ∙ simp append_assoc)

-- A new writer driven along a document holds its text, with every bracket closed.
pub drive-render : (v : Json) → drive v new_writer ≡ inside (render v) []
drive-render v =
    drive-value_prefix v new_writer (keyed [] []) (unfold value_prefix in refl)
    ∙ drive-keyed v [] []
