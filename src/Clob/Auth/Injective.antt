-- ===== src/Clob/Auth/Injective.antt =====
-- The 384 bytes hashed for an order determine the order (clob/auth.go).
use polymarket_go.Prelude.{
  zero, suc, ◌%◌, inl, inr, length-append, arith, replicate, ℕ, Result-cases, append-nil, ◌<◌, ◌≡◌,
  refl, sym, ap, ◌∙◌, List, [], ◌∷◌, ◌++◌, Text, ok, length, take, drop,
}
use polymarket_go.Prelude.Words.{ℤ, pos}
use polymarket_go.Clob.Deps.{Deps, Address}
use polymarket_go.Clob.Types.{OrderData}
use polymarket_go.Clob.Auth.Bytes.{length-be_bytes}
use polymarket_go.Clob.Auth.{
  write_uint256, write_address, write_uint8, order_words, order_type_hash,
}
use polymarket_go.Clob.Auth.Bytes.{fill_bytes-ok, be_bytes-injective, length-be_bytes, abs}

take-append {ℓ} : {A : Type ℓ} (xs ys : List A) → take (length xs) (xs ++ ys) ≡ xs
take-append [] ys = refl
take-append (x ∷ xs) ys = rw (take-append xs ys)

drop-append {ℓ} : {A : Type ℓ} (xs ys : List A) → drop (length xs) (xs ++ ys) ≡ ys
drop-append [] ys = refl
drop-append (x ∷ xs) ys = drop-append xs ys

-- Equal texts whose first parts are equally long have equal parts.
append-split {ℓ} :
    {A : Type ℓ} (xs us ys vs : List A)
    → length xs ≡ length us
    → xs ++ ys ≡ us ++ vs
    → (xs ≡ us) × (ys ≡ vs)
append-split xs us ys vs l e = (
  sym (take-append xs ys)
      ∙ (ap (take (length xs)) e ∙ (ap (λ n. take n (us ++ vs)) l ∙ take-append us vs)),
  sym (drop-append xs ys)
      ∙ (ap (drop (length xs)) e ∙ (ap (λ n. drop n (us ++ vs)) l ∙ drop-append us vs)),
)

-- An order as the client makes them: amounts and times that are not negative, addresses of 20
-- bytes, one byte for side and signature type, and 32 bytes of metadata and of builder.
pub record IsProper (o : OrderData) : Type 0 where
  pub token : o.token_id ≡ pos (abs o.token_id)
  pub maker_amt : o.maker_amount ≡ pos (abs o.maker_amount)
  pub taker_amt : o.taker_amount ≡ pos (abs o.taker_amount)
  pub time : o.timestamp ≡ pos (abs o.timestamp)
  pub maker_len : length o.maker ≡ 20
  pub signer_len : length o.signer ≡ 20
  pub side_byte : o.side < 256
  pub type_byte : o.signature_type < 256
  pub metadata_len : length o.metadata ≡ 32
  pub builder_len : length o.builder ≡ 32

write_uint256-length : (v : ℤ) (bs : Text) → write_uint256 v ≡ ok bs → length bs ≡ 32
write_uint256-length v bs h = ap length (fill_bytes-ok 32 v bs h).1 ∙ length-be_bytes 32 (abs v)

write_uint256-injective :
    (v u : ℤ) (bs : Text) → write_uint256 v ≡ ok bs → write_uint256 u ≡ ok bs → abs v ≡ abs u
write_uint256-injective v u bs h k =
    let (hv, ev) = fill_bytes-ok 32 v bs h in
    let (hu, eu) = fill_bytes-ok 32 u bs k in
    be_bytes-injective 32 (abs v) (abs u) hv hu (sym ev ∙ eu)

take-all {ℓ} : {A : Type ℓ} (n : ℕ) (xs : List A) → length xs ≡ n → take n xs ≡ xs
take-all zero [] h = refl
take-all zero (x ∷ xs) h = absurd (omega arith)
take-all (suc n) [] h = refl
take-all (suc n) (x ∷ xs) h = rw (take-all n xs (omega arith))

write_address_lem : (a : Address) → length a ≡ 20 → write_address a ≡ replicate 12 0 ++ a
unfolding write_address
write_address_lem a h = rw (h, take-all 20 a h) (ap (◌++◌ (replicate 12 0)) (append-nil a))

write_address-length : (a : Address) → length a ≡ 20 → length (write_address a) ≡ 32
write_address-length a h =
    omega (arith, ap length (write_address_lem a h), length-append (replicate 12 0) a)

write_address-injective :
    (a b : Address) → length a ≡ 20 → length b ≡ 20 → write_address a ≡ write_address b → a ≡ b
write_address-injective a b ha hb e =
    (append-split (replicate 12 0) (replicate 12 0) a b refl
      (sym (write_address_lem a ha) ∙ (e ∙ write_address_lem b hb))).1

write_uint8-injective : (v u : ℕ) → v < 256 → u < 256 → write_uint8 v ≡ write_uint8 u → v ≡ u
unfolding write_uint8
write_uint8-injective v u hv hu e = let p : v % 256 ≡ u % 256 = ground arith in omega arith

write_uint8-length : (v : ℕ) → length (write_uint8 v) ≡ 32
unfolding write_uint8
write_uint8-length v = omega arith

-- Equal words are those of equal values.
word_eq :
    (v u : ℤ) (s t : Text) → write_uint256 v ≡ ok s → write_uint256 u ≡ ok t → s ≡ t → abs v ≡ abs u
word_eq v u s t h k e = write_uint256-injective v u t (h ∙ ap ok e) k

same_fields :
    (o p : OrderData)
    → IsProper o
    → IsProper p
    → o.salt ≡ p.salt
    → o.maker ≡ p.maker
    → o.signer ≡ p.signer
    → abs o.token_id ≡ abs p.token_id
    → abs o.maker_amount ≡ abs p.maker_amount
    → abs o.taker_amount ≡ abs p.taker_amount
    → o.side ≡ p.side
    → o.signature_type ≡ p.signature_type
    → abs o.timestamp ≡ abs p.timestamp
    → o.metadata ≡ p.metadata
    → o.builder ≡ p.builder
    → o ≡ p
same_fields o p po pp e1 e2 e3 e4 e5 e6 e7 e8 e9 e10 e11 =
    let signed = λ (v : ℤ) (u : ℤ) (h : v ≡ pos (abs v)) (k : u ≡ pos (abs u)) (e : abs v ≡ abs u).
      h ∙ (ap pos e ∙ sym k) in
    let t = signed o.token_id p.token_id po.token pp.token e4 in
    let m = signed o.maker_amount p.maker_amount po.maker_amt pp.maker_amt e5 in
    let k = signed o.taker_amount p.taker_amount po.taker_amt pp.taker_amt e6 in
    let u = signed o.timestamp p.timestamp po.time pp.time e9 in
    λ i. record {
      salt = e1 i;
      maker = e2 i;
      signer = e3 i;
      token_id = t i;
      maker_amount = m i;
      taker_amount = k i;
      side = e7 i;
      signature_type = e8 i;
      timestamp = u i;
      metadata = e10 i;
      builder = e11 i;
    }

module _ {W : Type 0} (d : Deps W) where
  -- The words that `order_words` put one after the other.
  record Layout (o : OrderData) (buf : Text) : Type 0 where
    salt : Text
    token : Text
    maker_amt : Text
    taker_amt : Text
    time : Text
    salt_word : write_uint256 (pos o.salt) ≡ ok salt
    token_word : write_uint256 o.token_id ≡ ok token
    maker_word : write_uint256 o.maker_amount ≡ ok maker_amt
    taker_word : write_uint256 o.taker_amount ≡ ok taker_amt
    time_word : write_uint256 o.timestamp ≡ ok time
    laid :
        buf
        ≡ order_type_hash d
          ++ (salt
              ++ (write_address o.maker
                  ++ (write_address o.signer
                      ++ (token
                          ++ (maker_amt
                              ++ (taker_amt
                                  ++ (write_uint8 o.side
                                      ++ (write_uint8 o.signature_type
                                          ++ (time ++ (o.metadata ++ o.builder))))))))))

  order_words-Layout : (o : OrderData) (buf : Text) → order_words d o ≡ ok buf → Layout o buf
  unfolding order_words
  order_words-Layout o buf h = elim (Result-cases (write_uint256 (pos o.salt))) [
    | inr (x, e) ↦ absurd (ground arith)
    | inl (s, e1) ↦ elim (Result-cases (write_uint256 o.token_id)) [
      | inr (x, e) ↦ absurd (ground arith)
      | inl (t, e2) ↦ elim (Result-cases (write_uint256 o.maker_amount)) [
        | inr (x, e) ↦ absurd (ground arith)
        | inl (m, e3) ↦ elim (Result-cases (write_uint256 o.taker_amount)) [
          | inr (x, e) ↦ absurd (ground arith)
          | inl (k, e4) ↦ elim (Result-cases (write_uint256 o.timestamp)) [
            | inr (x, e) ↦ absurd (ground arith)
            | inl (u, e5) ↦ record {
              salt = s;
              token = t;
              maker_amt = m;
              taker_amt = k;
              time = u;
              salt_word = e1;
              token_word = e2;
              maker_word = e3;
              taker_word = e4;
              time_word = e5;
              laid = ground arith;
            }
          ]
        ]
      ]
    ]
  ]

  -- Two orders whose signed preimages are equal are equal: the 384 bytes that `buildOrderStructHash`
  -- hashes determine every field of an order as the client makes them.
  pub order_words-injective :
      (o p : OrderData) (buf : Text)
      → IsProper o
      → IsProper p
      → order_words d o ≡ ok buf
      → order_words d p ≡ ok buf
      → o ≡ p
  order_words-injective o p buf po pp ho hp =
      let a = order_words-Layout o buf ho in
      let b = order_words-Layout p buf hp in
      let len32 =
        λ (v : ℤ) (u : ℤ) (s : Text) (t : Text) (x : write_uint256 v ≡ ok s)
            (y : write_uint256 u ≡ ok t).
          write_uint256-length v s x ∙ sym (write_uint256-length u t y) in
      let (x0, r0) =
        append-split (order_type_hash d) (order_type_hash d) _ _ refl (sym a.laid ∙ b.laid) in
      let (salt_eq, r1) =
        append-split a.salt b.salt _ _ (len32 _ _ _ _ a.salt_word b.salt_word) r0 in
      let (maker_eq, r2) =
        append-split (write_address o.maker) (write_address p.maker) _ _
          (write_address-length o.maker po.maker_len
            ∙ sym (write_address-length p.maker pp.maker_len))
          r1 in
      let (signer_eq, r3) =
        append-split (write_address o.signer) (write_address p.signer) _ _
          (write_address-length o.signer po.signer_len
            ∙ sym (write_address-length p.signer pp.signer_len))
          r2 in
      let (token_eq, r4) =
        append-split a.token b.token _ _ (len32 _ _ _ _ a.token_word b.token_word) r3 in
      let (making_eq, r5) =
        append-split a.maker_amt b.maker_amt _ _ (len32 _ _ _ _ a.maker_word b.maker_word) r4 in
      let (taking_eq, r6) =
        append-split a.taker_amt b.taker_amt _ _ (len32 _ _ _ _ a.taker_word b.taker_word) r5 in
      let (side_eq, r7) =
        append-split (write_uint8 o.side) (write_uint8 p.side) _ _
          (write_uint8-length o.side ∙ sym (write_uint8-length p.side)) r6 in
      let (type_eq, r8) =
        append-split (write_uint8 o.signature_type) (write_uint8 p.signature_type) _ _
          (write_uint8-length o.signature_type ∙ sym (write_uint8-length p.signature_type)) r7 in
      let (time_eq, r9) =
        append-split a.time b.time _ _ (len32 _ _ _ _ a.time_word b.time_word) r8 in
      let (metadata_eq, builder_eq) =
        append-split o.metadata p.metadata _ _ (po.metadata_len ∙ sym pp.metadata_len) r9 in
      same_fields o p po pp (word_eq _ _ _ _ a.salt_word b.salt_word salt_eq)
        (write_address-injective o.maker p.maker po.maker_len pp.maker_len maker_eq)
        (write_address-injective o.signer p.signer po.signer_len pp.signer_len signer_eq)
        (word_eq _ _ _ _ a.token_word b.token_word token_eq)
        (word_eq _ _ _ _ a.maker_word b.maker_word making_eq)
        (word_eq _ _ _ _ a.taker_word b.taker_word taking_eq)
        (write_uint8-injective o.side p.side po.side_byte pp.side_byte side_eq)
        (write_uint8-injective o.signature_type p.signature_type po.type_byte pp.type_byte type_eq)
        (word_eq _ _ _ _ a.time_word b.time_word time_eq) metadata_eq builder_eq
