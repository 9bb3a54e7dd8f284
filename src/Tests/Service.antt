-- ===== src/Tests/Service.antt =====
-- The toy provider is in working order with one slot, though it refuses a key every call but those
-- it was made for, and an honest exchange on it completes.
use claude_crypto.Base.{
  ◌<◌, ◌%◌, ◌==◌, false, ℕ, zero, suc, ◌+◌, ◌≤◌, Bool, true, Option, none, some, if◌then◌else◌, [],
  ◌∷◌, ◌≡◌, refl, ap, subst, ◌∙◌, length, replicate, take, equal, equal_refl, arith,
}
use claude_crypto.Api.Result.{Bytes, ok}
use claude_crypto.Api.Ecc.{p256}
use claude_crypto.Api.Service.{
  Answers, KeyUse, exchange_key, agreement_key, signing_key, verifying_key, mac_key,
  mac_verifying_key, CryptoService,
}
use claude_crypto.Sigma.{
  SigmaInitiatorInitResult, SigmaResponderRespondResult, SigmaInitiatorFinishResult,
  sigma_initiator_begin_impl, sigma_responder_respond_impl, sigma_initiator_finish_impl,
  sigma_responder_finish_impl,
}
use claude_crypto.Sigma.Completion.{sigma_exchange_completes}
use claude_crypto.Tests.Toy.{
  Store, toy, toy_laws, total, key_id, gate, find, remove, with_key, check_key, tag, public, agree,
  signs, macs, ==_refl,
}
use claude_crypto.Tests.Exchange.{initiator, responder}

-- The last octal digit of the ids of the keys of a use.
abbrev digit : KeyUse → ℕ
digit exchange_key = 1
digit agreement_key = 2
digit signing_key = 3
digit verifying_key = 4
digit mac_key = 5
digit mac_verifying_key = 6

-- The one key that is there, under an id of its use.
abbrev Holding : Store → ℕ → KeyUse → Bytes → Type 0
Holding s id purpose b = (s ≡ (id, b) ∷ []) × (id % 8 ≡ digit purpose)

find_held :
    (id : ℕ) (purpose : KeyUse) (b : Bytes) (s : Store)
    → Holding s id purpose b
    → gate (digit purpose) id (find s id) ≡ some b
find_held id purpose b s (there, named) =
    let is_open : (id % 8 == digit purpose) ≡ true =
      ap (λ (n : ℕ). n == digit purpose) named ∙ ==_refl (digit purpose) in
    rw is_open (
      ap (λ (t : Store). find t id) there
      ∙ ap (λ (c : Bool). if c then some b else none) (==_refl id))

remove_held : (id : ℕ) (b : Bytes) (s : Store) → s ≡ (id, b) ∷ [] → remove id s ≡ []
remove_held id b s h =
    ap (remove id) h ∙ ap (λ (c : Bool). if c then [] else (id, b) ∷ []) (==_refl id)

called :
    (id : ℕ) (purpose : KeyUse) (f : Bytes → Bytes) (b : Bytes) (s : Store)
    → Holding s id purpose b
    → with_key (gate (digit purpose) id (find s id)) f s ≡ (ok (f b), s)
called id purpose f b s h = ap (λ (o : Option Bytes). with_key o f s) (find_held id purpose b s h)

checks :
    (id : ℕ) (purpose : KeyUse) (f : Bytes → Bool) (b : Bytes) (s : Store)
    → Holding s id purpose b
    → f b ≡ true
    → ((check_key (gate (digit purpose) id (find s id)) f s).0 ≡ 0)
      × Holding (check_key (gate (digit purpose) id (find s id)) f s).1 id purpose b
checks id purpose f b s h good =
    let answer : check_key (gate (digit purpose) id (find s id)) f s ≡ (0, s) =
      ap (λ (o : Option Bytes). check_key o f s) (find_held id purpose b s h)
      ∙ ap (λ (c : Bool). (if c then 0 else 1, s)) good in
    (ap (λ (r : ℕ × Store). r.0) answer, (ap (λ (r : ℕ × Store). r.1) answer ∙ h.0, h.1))

signed : (b m : Bytes) → signs (public b) m ((8 + total b + total m) ∷ []) ≡ true
signed b m =
    subst (λ (n : ℕ). equal (n ∷ []) ((4 + (4 + total b) + total m) ∷ []) ≡ true) (omega arith)
      (equal_refl ((4 + (4 + total b) + total m) ∷ []))

length-replicate : (n x : ℕ) → length (replicate n x) ≡ n
length-replicate zero x = refl
length-replicate (suc n) x = omega (arith, length-replicate n x)

macs_of : (k m : Bytes) {g x : Bytes} → g ≡ x → macs k m x ≡ true → macs k m g ≡ true
macs_of k m h good = ap (macs k m) h ∙ good

tagged : (k m g : Bytes) → g ≡ take 48 (tag k m) → macs k m g ≡ true
tagged k m g h = macs_of k m h (equal_refl (take 48 (tag k m)))

key_id-digit : (n : ℕ) (s : Store) → n < 8 → key_id n s % 8 ≡ n
key_id-digit n s small = omega (arith, small)

imported :
    (purpose : KeyUse) (b : Bytes) (s : Store)
    → digit purpose < 8
    → s ≡ []
    → Answers (toy.import_key (digit purpose) b s) (λ id t. Holding t id purpose b)
imported purpose b s small h =
    let id : ℕ = key_id (digit purpose) s in
    (
      id,
      (id, b) ∷ s,
      refl,
      (ap (λ (t : Store). (id, b) ∷ t) h, key_id-digit (digit purpose) s small),
    )

derived_bytes :
    (k salt info : Bytes) (n : ℕ) (s : Store)
    → 1 ≤ n
    → s ≡ []
    → Answers (toy.hkdf_derive k salt info n false s) (λ x t. (length x ≡ n) × (t ≡ []))
derived_bytes k salt info zero s some_bytes h = absurd (omega (arith, some_bytes))
derived_bytes k salt info (suc n) s some_bytes h = (_, s, refl, (length-replicate (suc n) _, h))

abbrev toy_service : CryptoService toy toy_laws p256
toy_service = record {
  Ready = λ s. s ≡ [];
  Holds = Holding;
  IsPrivate = λ b. 1 ≤ length b;
  next_key = λ s. 7 ∷ length s ∷ [];
  Signable = λ b m. Unit;
  Signs = λ b m g. signs (public b) m g ≡ true;
  tag = λ k m. take 48 (tag k m);
  ok_is_ok = refl;
  ok_is_valid = refl;
  ok_is_accepted = refl;
  initialises = λ s h. (refl, h, refl);
  derives =
      λ k salt info n s some_bytes small ks ss is h. derived_bytes k salt info n s some_bytes h;
  next_private = λ s h. omega arith;
  secret_short = λ b c hb hc. omega arith;
  generates = λ s h. (
    key_id 1 s,
    (key_id 1 s, 7 ∷ length s ∷ []) ∷ s,
    refl,
    (ap (λ (t : Store). (key_id 1 s, 7 ∷ length s ∷ []) ∷ t) h, key_id-digit 1 s (omega arith)),
  );
  imports_agree = λ b s private h. imported agreement_key b s (omega arith) h;
  imports_sign = λ b s private h. imported signing_key b s (omega arith) h;
  imports_verify = λ b s private h. imported verifying_key (public b) s (omega arith) h;
  imports_mac = λ k s long short h. imported mac_key k s (omega arith) h;
  imports_mac_verify = λ k s long short h. imported mac_verifying_key k s (omega arith) h;
  destroys = λ id s {purpose} {b} h. remove_held id b s h.0;
  exports = λ id s {b} h. (b, s, called id exchange_key (λ c. c) b s h, (refl, h));
  exports_public = λ id s {b} h. (public b, s, called id exchange_key public b s h, (refl, h));
  agrees = λ id c peer s {b} theirs same h.
      (agree b peer, s, called id agreement_key (λ k. agree k peer) b s h, (refl, h));
  signs = λ id m s {b} private h. (
    (8 + total b + total m) ∷ [],
    s,
    called id signing_key (λ k. (8 + total k + total m) ∷ []) b s h,
    (signed b m, h),
  );
  verifies = λ id m g s {b} good h. checks id verifying_key (λ k. signs k m g) (public b) s h good;
  macs = λ id m s {k} h. (tag k m, s, called id mac_key (λ b. tag b m) k s h, (refl, h));
  verifies_mac = λ id m g s {k} same h.
      checks id mac_verifying_key (λ b. macs b m g) k s h (tagged k m g same);
}

sigma_exchange_completes_example :
    (init : SigmaInitiatorInitResult) × (s1 : Store) × (sigma_initiator_begin_impl toy p256 []
      ≡ (ok init, s1))
    × (resp : SigmaResponderRespondResult) × (r1 : Store) × (sigma_responder_respond_impl toy p256
          init.msg1 responder []
        ≡ (ok resp, r1))
    × (fin : SigmaInitiatorFinishResult) × (s2 : Store) × (sigma_initiator_finish_impl toy p256
          init.state resp.msg2 initiator responder.public_key_der s1
        ≡ (ok fin, s2))
    × (r2 : Store) × (sigma_responder_finish_impl toy p256 fin.msg3 resp.session_keys init.msg1
          resp.msg2 initiator.public_key_der r1
        ≡ (ok true, r2))
    × (fin.session_keys ≡ resp.session_keys)
sigma_exchange_completes_example =
    sigma_exchange_completes toy toy_laws p256 toy_service initiator responder [] []
      (omega arith, refl) (omega arith, refl) tt tt refl refl
