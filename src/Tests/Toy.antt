-- ===== src/Tests/Toy.antt =====
-- A provider for the runs. Its keys are byte strings on a stack, named by their position and by what
-- they were made for, and a key answers no calls but those; its cryptography is addition, which
-- keeps every law that the theorems ask for.
use mathlib.Core.Bool.{false≢true}
use claude_crypto.Base.{
  ℕ, zero, suc, ◌*◌, Bool-cases, inl, inr, ◌+◌, ◌%◌, Bool, true, false, Option, none, some, List,
  [], ◌∷◌, ◌++◌, ◌==◌, if◌then◌else◌, ◌≡◌, refl, sym, ap, subst, ◌∙◌, length, replicate, drop,
  equal, arith,
}
use claude_crypto.Api.Result.{Bytes, Expected, ok, unexpected}
use claude_crypto.Api.Provider.{CryptoProvider}
use claude_crypto.Api.KeyBalance.{KeyAccounting}
use claude_crypto.Api.Success.{CryptoLaws}

abbrev pub Store : Type 0
Store = List (ℕ × Bytes)

abbrev pub Answer : Type 0
Answer = Expected ℕ Bytes × Store

abbrev pub total : Bytes → ℕ
total [] = 0
total (x ∷ xs) = x + total xs

abbrev pub find : Store → ℕ → Option Bytes
find [] id = none
find (k ∷ s) id = if k.0 == id then some k.1 else find s id

abbrev pub remove : ℕ → Store → Store
remove id [] = []
remove id (k ∷ s) = if k.0 == id then s else k ∷ remove id s

-- What a call answers for a key that is there, and for one that is not.
abbrev pub with_key : Option Bytes → (Bytes → Bytes) → Store → Answer
with_key none f s = (unexpected 3, s)
with_key (some b) f s = (ok (f b), s)

abbrev pub check_key : Option Bytes → (Bytes → Bool) → Store → ℕ × Store
check_key none test s = (3, s)
check_key (some b) test s = (if test b then 0 else 1, s)

-- What a key was made for (1 to be exported, 2 to agree, 3 to sign, 4 to verify, 5 for MACs, 6 to
-- verify them, 0 for the rest) is the last octal digit of its id.
abbrev pub key_id : ℕ → Store → ℕ
key_id purpose s = length s * 8 + purpose

abbrev pub gate : ℕ → ℕ → Option Bytes → Option Bytes
gate purpose id b = if id % 8 == purpose then b else none

abbrev pub tag : Bytes → Bytes → Bytes
tag key message = replicate 64 ((total key + total message) % 256)

abbrev pub public : Bytes → Bytes
public b = 4 ∷ b

abbrev pub agree : Bytes → Bytes → Bytes
agree key peer = (total key + total peer) ∷ []

abbrev pub stretch : Bytes → Bytes → Bytes → ℕ → Bool → Bytes
stretch k salt info n e = replicate n ((total k + total info) % 256)

-- No bytes are refused.
abbrev pub derived : Bytes → Bytes → Bytes → ℕ → Bool → Expected ℕ Bytes
derived k salt info zero e = unexpected 3
derived k salt info (suc n) e = ok (stretch k salt info (suc n) e)

abbrev pub signs : Bytes → Bytes → Bytes → Bool
signs key message signature = equal signature ((4 + total key + total message) ∷ [])

abbrev pub macs : Bytes → Bytes → Bytes → Bool
macs key message mac = equal mac (replicate (length mac) ((total key + total message) % 256))

abbrev pub toy : CryptoProvider
toy = record {
  State = Store;
  Status = ℕ;
  KeyId = ℕ;
  Algorithm = ℕ;
  KeyAttributes = ℕ;
  status_eq = ◌==◌;
  status_ok = 0;
  err_invalid_sig = 1;
  err_invalid_arg = 2;
  alg_sha = λ v. 1;
  alg_hmac = λ v. 2;
  alg_ecdsa = 3;
  alg_ecdh = 4;
  alg_aes_gcm = 5;
  alg_chacha20_poly1305 = 6;
  alg_rsa_oaep = 7;
  alg_rsa_pss = 8;
  alg_slh_dsa = λ v. 10;
  alg_ml_dsa = λ v. 11;
  alg_ml_kem = λ v. 9;
  make_hmac_generate_attrs = λ v n. 5;
  make_hmac_verify_attrs = λ v n. 6;
  make_ecdsa_generate_attrs = λ n. 1;
  make_ecdsa_sign_attrs = λ n. 3;
  make_ecdsa_verify_attrs = λ n. 4;
  make_ecdh_generate_attrs = λ n. 1;
  make_ecdh_agree_attrs = λ n. 2;
  make_aes256_gcm_encrypt_attrs = 0;
  make_aes256_gcm_decrypt_attrs = 0;
  make_chacha20_poly1305_encrypt_attrs = 0;
  make_chacha20_poly1305_decrypt_attrs = 0;
  make_rsa_key_pair_attrs = λ n. 1;
  make_rsa_oaep_encrypt_attrs = λ n. 0;
  make_rsa_oaep_decrypt_attrs = λ n. 0;
  make_rsa_pss_sign_attrs = λ n. 3;
  make_rsa_pss_verify_attrs = λ n. 4;
  make_slh_dsa_sign_attrs = λ v. 3;
  make_slh_dsa_verify_attrs = λ v. 4;
  make_slh_dsa_generate_attrs = λ v. 1;
  make_ml_dsa_sign_attrs = λ v. 3;
  make_ml_dsa_verify_attrs = λ v. 4;
  make_ml_dsa_generate_attrs = λ v. 1;
  make_ml_kem_generate_attrs = λ v. 1;
  make_ml_kem_encap_attrs = λ v. 0;
  make_ml_kem_decap_attrs = λ v. 0;
  crypto_init = λ s. (0, s);
  generate_random = λ n s. (ok (replicate n 9), s);
  import_key = λ a b s. (ok (key_id a s), (key_id a s, b) ∷ s);
  generate_key = λ a s. (ok (key_id a s), (key_id a s, 7 ∷ length s ∷ []) ∷ s);
  destroy_key = λ id s. (0, remove id s);
  export_key = λ id s. with_key (gate 1 id (find s id)) (λ b. b) s;
  export_public_key = λ id s. with_key (gate 1 id (find s id)) public s;
  sign_message = λ id a m s. with_key (gate 3 id (find s id)) (λ b. (8 + total b + total m) ∷ []) s;
  verify_message = λ id a m g s. check_key (gate 4 id (find s id)) (λ b. signs b m g) s;
  mac_compute = λ id a m s. with_key (gate 5 id (find s id)) (λ b. tag b m) s;
  mac_verify = λ id a m g s. check_key (gate 6 id (find s id)) (λ b. macs b m g) s;
  aead_encrypt = λ id a n d m s. with_key (find s id) (λ b. b ++ m) s;
  aead_decrypt = λ id a n d m s. with_key (find s id) (λ b. drop (length b) m) s;
  asymmetric_encrypt = λ id a m l s. with_key (find s id) (λ b. b ++ m) s;
  asymmetric_decrypt = λ id a m l s. with_key (find s id) (λ b. drop (length b) m) s;
  raw_key_agreement = λ a id peer s. with_key (gate 2 id (find s id)) (λ b. agree b peer) s;
  kem_encapsulate = λ id a s. (ok (record { ciphertext = 1 ∷ []; shared_secret = 2 ∷ [] }), s);
  kem_decapsulate = λ id a c s. with_key (find s id) (λ b. 2 ∷ []) s;
  hash_compute = λ a m s. (ok (total m % 256 ∷ []), s);
  hkdf_derive = λ k salt info n e s. (derived k salt info n e, s);
}

pub ==_refl : (n : ℕ) → (n == n) ≡ true
==_refl n = ground arith

abbrev ids : Store → List ℕ
ids [] = []
ids (k ∷ s) = k.0 ∷ ids s

with_key-keeps : (b : Option Bytes) (f : Bytes → Bytes) (s : Store) → ids (with_key b f s).1 ≡ ids s
with_key-keeps none f s = refl
with_key-keeps (some b) f s = refl

check_key-keeps :
    (b : Option Bytes) (f : Bytes → Bool) (s : Store) → ids (check_key b f s).1 ≡ ids s
check_key-keeps none f s = refl
check_key-keeps (some b) f s = refl

remove-newest : (id : ℕ) (keys : List ℕ) (s : Store) → ids s ≡ id ∷ keys → ids (remove id s) ≡ keys
remove-newest id keys [] h = cc h
remove-newest id keys (k ∷ s) h = ground arith

pub toy_accounting : KeyAccounting toy
toy_accounting = record {
  live = ids;
  import_live = λ a b s. refl;
  generate_live = λ a s. refl;
  destroy_live = remove-newest;
  init_live = λ s. refl;
  random_live = λ n s. refl;
  export_live = λ id s. with_key-keeps (gate 1 id (find s id)) _ s;
  export_public_live = λ id s. with_key-keeps (gate 1 id (find s id)) _ s;
  sign_live = λ id a m s. with_key-keeps (gate 3 id (find s id)) _ s;
  verify_live = λ id a m g s. check_key-keeps (gate 4 id (find s id)) _ s;
  mac_live = λ id a m s. with_key-keeps (gate 5 id (find s id)) _ s;
  mac_verify_live = λ id a m g s. check_key-keeps (gate 6 id (find s id)) _ s;
  encrypt_live = λ id a n d m s. with_key-keeps (find s id) _ s;
  decrypt_live = λ id a n d m s. with_key-keeps (find s id) _ s;
  asymmetric_encrypt_live = λ id a m l s. with_key-keeps (find s id) _ s;
  asymmetric_decrypt_live = λ id a m l s. with_key-keeps (find s id) _ s;
  agree_live = λ a id m s. with_key-keeps (gate 2 id (find s id)) _ s;
  encapsulate_live = λ id a s. refl;
  decapsulate_live = λ id a c s. with_key-keeps (find s id) _ s;
  hash_live = λ a m s. refl;
  hkdf_live = λ k t i n e s. refl;
}

pub found :
    (b : Option Bytes) (f : Bytes → Bytes) (s : Store) {c x : Bytes} {t : Store}
    → with_key b f s ≡ (ok x, t)
    → b ≡ some c
    → x ≡ f c
found none f s h e = cc e
found (some a) f s h e = cc (h, e)

held :
    (b : Option Bytes) (s : Store) {x : Bytes} {t : Store}
    → with_key b (λ c. c) s ≡ (ok x, t)
    → (b ≡ some x) × (s ≡ t)
held none s h = cc h
held (some a) s h = (cc h, cc h)

accepted : (b : Bool) → ((if b then 0 else 1) == 0) ≡ true → b ≡ true
accepted true h = refl
accepted false h = h

pub checked :
    (b : Option Bytes) (f : Bytes → Bool) (s : Store) {c : Bytes} {st : ℕ} {t : Store}
    → check_key b f s ≡ (st, t)
    → (st == 0) ≡ true
    → b ≡ some c
    → f c ≡ true
checked none f s h good e = cc e
checked (some a) f s {c} {st} {t} h good e =
    let same : a ≡ c = cc e in
    let status : (if f a then 0 else 1) ≡ st = cc h in
    ap f (sym same) ∙ accepted (f a) (ap (λ (n : ℕ). n == 0) status ∙ good)

pub fresh :
    (a : ℕ) (b : Bytes) (s : Store) {id : ℕ} {t : Store}
    → toy.import_key a b s ≡ (ok id, t)
    → find t id ≡ some b
fresh a b s {id} {t} h =
    let named : key_id a s ≡ id = cc h in
    let stored : ◌≡◌ {A = Store} ((key_id a s, b) ∷ s) t = cc h in
    subst (λ (u : Store). find u id ≡ some b) stored
      (subst (λ (n : ℕ). find ((key_id a s, b) ∷ s) n ≡ some b) named
        (ap (λ (c : Bool). if c then some b else find s (key_id a s)) (==_refl (key_id a s))))

pub answered : {x y : Bytes} {s t : Store} → ◌≡◌ {A = Answer} (ok y, s) (ok x, t) → x ≡ y
answered h = cc h

-- Where a gated key answers, the gate was open.
gate_open :
    (purpose id : ℕ) (b : Option Bytes) (f : Bytes → Bytes) (s : Store) {x : Bytes} {t : Store}
    → with_key (gate purpose id b) f s ≡ (ok x, t)
    → gate purpose id b ≡ b
gate_open purpose id b f s h = elim (Bool-cases (id % 8 == purpose)) [
  | inl is_open ↦ rw is_open refl
  | inr closed ↦ absurd (cc (rw closed at h))
]

gate_checked :
    (purpose id : ℕ) (b : Option Bytes) (f : Bytes → Bool) (s : Store) {st : ℕ} {t : Store}
    → check_key (gate purpose id b) f s ≡ (st, t)
    → (st == 0) ≡ true
    → gate purpose id b ≡ b
gate_checked purpose id b f s {st} {t} h good = elim (Bool-cases (id % 8 == purpose)) [
  | inl is_open ↦ rw is_open refl
  | inr closed ↦
      let refused : ◌≡◌ {A = ℕ × Store} (3, s) (st, t) = rw closed at h in
      let status : 3 ≡ st = ap (λ (r : ℕ × Store). r.0) refused in
      absurd (false≢true (ap (λ (n : ℕ). n == 0) status ∙ good))
]

pub exported :
    (id : ℕ) (s : Store) {b : Bytes} {t : Store}
    → toy.export_key id s ≡ (ok b, t)
    → find t id ≡ some b
exported id s {b} {t} h =
    let (e, same) = held (gate 1 id (find s id)) s h in
    subst (λ (u : Store). find u id ≡ some b) same
      (sym (gate_open 1 id (find s id) (λ c. c) s h) ∙ e)

pub gated :
    (purpose id : ℕ) (f : Bytes → Bytes) (s : Store) {c x : Bytes} {t : Store}
    → with_key (gate purpose id (find s id)) f s ≡ (ok x, t)
    → find s id ≡ some c
    → x ≡ f c
gated purpose id f s h e =
    found (gate purpose id (find s id)) f s h (gate_open purpose id (find s id) f s h ∙ e)

pub gated_check :
    (purpose id : ℕ) (f : Bytes → Bool) (s : Store) {c : Bytes} {st : ℕ} {t : Store}
    → check_key (gate purpose id (find s id)) f s ≡ (st, t)
    → (st == 0) ≡ true
    → find s id ≡ some c
    → f c ≡ true
gated_check purpose id f s h good e =
    checked (gate purpose id (find s id)) f s h good
      (gate_checked purpose id (find s id) f s h good ∙ e)

pub derived-ok :
    (k salt info : Bytes) (n : ℕ) (e : Bool) {x : Bytes} {s t : Store}
    → ◌≡◌ {A = Answer} (derived k salt info n e, s) (ok x, t)
    → x ≡ stretch k salt info n e
derived-ok k salt info zero e h = cc h
derived-ok k salt info (suc n) e h = answered h

abbrev pub toy_laws : CryptoLaws toy
toy_laws = record {
  key_of = find;
  public_of = public;
  dh = agree;
  kdf = stretch;
  SigVerifies = λ k m g. signs k m g ≡ true;
  MacVerifies = λ v k m g. macs k m g ≡ true;
  AesGcmOpens = λ k n d c x. x ≡ drop (length k) c;
  import_key_of = fresh;
  export_key_of = exported;
  export_public_of = λ id s h e. gated 1 id public s h e;
  agree_dh = λ id peer s h e. gated 2 id (λ b. agree b peer) s h e;
  dh_comm = λ a b. ap (λ (n : ℕ). n ∷ []) (omega arith);
  hkdf_kdf = λ k salt info n e s h. derived-ok k salt info n e h;
  verify_signature = λ id m g s h good e. gated_check 4 id (λ b. signs b m g) s h good e;
  verify_mac = λ v id m g s h good e. gated_check 6 id (λ b. macs b m g) s h good e;
  decrypt_opens = λ id n d c s h e. found (find s id) (λ b. drop (length b) c) s h e;
}
