-- ===== src/Tcp/Pins.antt =====
-- The keys that buildTrustStoreFromEnv (transport/tcp/client.go) pins.
use mathlib.Core.List.{Memᴰ}
use mathlib.Core.List.Memᴰ
use shadowlark_go.Base.{
  ℕ, ◌+◌, ◌≡◌, ◌↔◌, ◌⊎◌, inl, inr, refl, sym, ap, ◌∙◌, subst, List, [], ◌∷◌, length,
}
use shadowlark_go.Base.{
  Bool, true, false, Bool-cases, ◌||◌, not, ◌==◌, ==_iff, ok, err, Error, ◌>>=◌, if◌then◌else◌,
}
use shadowlark_go.Base.Inversion.{bind-ok, guard-ok, require-ok, ok_injective}
use shadowlark_go.Handshake.Keys.{TrustStore, fit, strict_trust_store, pin, is_trusted, same_key}
use shadowlark_go.Handshake.Identity.{fit-whole}
use shadowlark_go.Tcp.Environment.{
  Library, Environment, is_empty, parse_hex_bytes, pin_token, pin_tokens,
}
use shadowlark_go.Tcp.Environment.{build_trust_store_from_env}

pub same_key_self : (a : List ℕ) → same_key a a ≡ true
unfolding same_key
same_key_self [] = refl
same_key_self (x ∷ xs) = rw ((==_iff x x).1 refl, same_key_self xs) refl

pub same_key-eq : (a b : List ℕ) → same_key a b ≡ true → a ≡ b
unfolding same_key
same_key-eq [] [] e = refl
same_key-eq [] (y ∷ ys) e = cc
same_key-eq (x ∷ xs) [] e = cc
same_key-eq (x ∷ xs) (y ∷ ys) e = elim (Bool-cases (x == y)) [
  | inl same ↦
      let rest : same_key xs ys ≡ true = rw (same_key, same) at e in
      let heads : x ≡ y = (==_iff x y).0 same in let tails = same_key-eq xs ys rest in cc
  | inr differ ↦ let refused : false ≡ true = rw (same_key, differ) at e in cc
]

-- A token that is not blank and is the hexadecimal text of a key of 32 bytes
pub record IsPinOf (lib : Library) (token key : List ℕ) : Type 0 where
  pub not_blank : is_empty (lib.trim_space token) ≡ false
  pub parsed : parse_hex_bytes lib (lib.trim_space token) ≡ ok key
  pub size : length key ≡ 32

or_true : (a b : Bool) → b ≡ true → (a || b) ≡ true
or_true true b h = refl
or_true false b h = h

module _ (lib : Library) where
  pin_token-ok :
      (token : List ℕ) (trust trust' : TrustStore) (n n' : ℕ)
      → pin_token lib token trust n ≡ ok (trust', n')
      → ((is_empty (lib.trim_space token) ≡ true) × (trust' ≡ trust))
        ⊎ ((key : List ℕ) × IsPinOf lib token key × (trust' ≡ pin key trust))
  unfolding pin_token
  pin_token-ok token trust trust' n n' e = elim (Bool-cases (is_empty (lib.trim_space token))) [
    | inl blank ↦
        let e' : ok (trust, n) ≡ ok (trust', n') = rw (pin_token, blank) at e in
        inl (blank, ap (λ x. x.0) (sym (ok_injective (trust, n) (trust', n') e')))
    | inr text ↦
        let e1 : (parse_hex_bytes lib (lib.trim_space token) >>= λ bs.
        if not (length bs == 32)
        then err (Error.wrong_pin_length (length bs))
        else ok (pin (fit 32 bs) trust, n + 1))
            ≡ ok (trust', n') =
          rw (pin_token, text) at e in
        let (key, parsed, e2) = bind-ok (parse_hex_bytes lib (lib.trim_space token)) _ _ e1 in
        let (size, e3) = require-ok (length key == 32) _ _ _ e2 in
        let size' : length key ≡ 32 = (==_iff (length key) 32).0 size in
        let stored =
          ap (λ x. x.0) (sym (ok_injective (pin (fit 32 key) trust, n + 1) (trust', n') e3)) in
        inr (
          key,
          record { not_blank = text; parsed = parsed; size = size' },
          stored ∙ ap (λ x. pin x trust) (fit-whole 32 key size'),
        )
  ]

  -- One of the tokens is the text of the key.
  abbrev pub IsPinned : List (List ℕ) → List ℕ → Type 0
  IsPinned tokens key = (token : List ℕ) × Memᴰ token tokens × IsPinOf lib token key

  IsPinned-later :
      (token : List ℕ) (tokens : List (List ℕ)) (key : List ℕ)
      → IsPinned tokens key
      → IsPinned (token ∷ tokens) key
  IsPinned-later token tokens key (t, listed, h) = (t, Memᴰ.tail listed, h)

  -- The first token is another one, or it is the one.
  IsPinned-cases :
      (token : List ℕ) (tokens : List (List ℕ)) (key : List ℕ)
      → IsPinned (token ∷ tokens) key
      → IsPinOf lib token key ⊎ IsPinned tokens key
  IsPinned-cases token tokens key (t, listed, h) = elim (Memᴰ.cases_cons listed) [
    | inl same ↦ inl (subst (λ x. IsPinOf lib x key) same h)
    | inr later ↦ inr (t, later, h)
  ]

  same_pin : (token key key' : List ℕ) → IsPinOf lib token key → IsPinOf lib token key' → key ≡ key'
  same_pin token key key' h h' = ok_injective key key' (sym h.parsed ∙ h'.parsed)

  blank_pin :
      (token key : List ℕ) → is_empty (lib.trim_space token) ≡ true → IsPinOf lib token key → ⊥
  blank_pin token key blank h = let wrong : true ≡ false = sym blank ∙ h.not_blank in cc

  pin_trusts :
      (key key' : List ℕ) (trust : TrustStore)
      → (is_trusted (pin key trust) key' ≡ true) ↔ ((key' ≡ key) ⊎ (is_trusted trust key' ≡ true))
  unfolding pin is_trusted
  pin_trusts key key' trust = (
    λ h. elim (Bool-cases (same_key key' key)) [
      | inl same ↦ inl (same_key-eq key' key same)
      | inr other ↦ inr (rw (pin, other) at h)
    ],
    λ found. elim found [
      | inl same ↦
          let found' : same_key key' key ≡ true =
            ap (same_key key') (sym same) ∙ same_key_self key' in
          rw found' refl
      | inr before ↦ or_true (same_key key' key) (trust key') before
    ],
  )

  pin_tokens-trusts :
      (tokens : List (List ℕ)) (trust trust' : TrustStore) (n n' : ℕ) (key : List ℕ)
      → pin_tokens lib tokens trust n ≡ ok (trust', n')
      → (is_trusted trust' key ≡ true) ↔ ((is_trusted trust key ≡ true) ⊎ IsPinned tokens key)
  unfolding pin_tokens is_trusted strict_trust_store
  pin_tokens-trusts [] trust trust' n n' key e =
      let same : trust ≡ trust' = ap (λ x. x.0) (ok_injective (trust, n) (trust', n') e) in
      (
        λ h. inl (subst (λ x. x key ≡ true) (sym same) h),
        λ found. elim found [
          | inl before ↦ subst (λ x. x key ≡ true) same before
          | inr (t, listed, h) ↦ elim listed [ ]
        ],
      )
  pin_tokens-trusts (token ∷ tokens) trust trust' n n' key e =
      let ((trust1, n1), first, e1) = bind-ok (pin_token lib token trust n) _ _ e in
      let rest = pin_tokens-trusts tokens trust1 trust' n1 n' key e1 in
      elim (pin_token-ok token trust trust1 n n1 first) [
        | inl (blank, same) ↦ (
          λ h. elim (rest.0 h) [
            | inl before ↦ inl (subst (λ x. x key ≡ true) same before)
            | inr later ↦ inr (IsPinned-later token tokens key later)
          ],
          λ found. rest.1 (elim found [
            | inl before ↦ inl (subst (λ x. x key ≡ true) (sym same) before)
            | inr pinned ↦ elim (IsPinned-cases token tokens key pinned) [
              | inl here ↦ elim (blank_pin token key blank here) [ ]
              | inr later ↦ inr later
            ]
          ]),
        )
        | inr (key0, h0, same) ↦ (
          λ h. elim (rest.0 h) [
            | inl before ↦
                elim ((pin_trusts key0 key trust).0 (subst (λ x. x key ≡ true) same before)) [
                  | inl new ↦ inr (token, Memᴰ.head refl, subst (IsPinOf lib token) (sym new) h0)
                  | inr old ↦ inl old
                ]
            | inr later ↦ inr (IsPinned-later token tokens key later)
          ],
          λ found. rest.1 (elim found [
            | inl before ↦
                inl (
                  subst (λ x. x key ≡ true) (sym same) ((pin_trusts key0 key trust).1 (inr before)))
            | inr pinned ↦ elim (IsPinned-cases token tokens key pinned) [
              | inl here ↦ inl (
                  subst (λ x. x key ≡ true) (sym same)
                    ((pin_trusts key0 key trust).1 (inl (same_pin token key key0 here h0))))
              | inr later ↦ inr later
            ]
          ]),
        )
      ]

-- A trust store that was made from the environment trusts a key just when one of the comma-separated
-- tokens, without the space around it, is the hexadecimal text of that key of 32 bytes.
pub trusted_iff_IsPinned :
    (lib : Library) (env : Environment) (trust : TrustStore) (key : List ℕ)
    → build_trust_store_from_env lib env ≡ ok trust
    → (is_trusted trust key ≡ true) ↔ IsPinned lib (lib.split (lib.trim_space env.trust_pins)) key
unfolding build_trust_store_from_env strict_trust_store is_trusted
trusted_iff_IsPinned lib env trust key e =
    let (set, e1) = guard-ok (is_empty (lib.trim_space env.trust_pins)) _ _ _ e in
    let ((trust', n), pinned, e2) =
      bind-ok (pin_tokens lib (lib.split (lib.trim_space env.trust_pins)) strict_trust_store 0) _ _
        e1 in
    let (some_pin, e3) = guard-ok (n == 0) _ _ _ e2 in
    let same : trust' ≡ trust = ok_injective trust' trust e3 in
    let both =
      pin_tokens-trusts lib (lib.split (lib.trim_space env.trust_pins)) strict_trust_store trust' 0
        n key pinned in
    (
      λ h. elim (both.0 (subst (λ x. x key ≡ true) (sym same) h)) [
        | inl never ↦ let wrong : false ≡ true = never in cc
        | inr found ↦ found
      ],
      λ found. subst (λ x. x key ≡ true) same (both.1 (inr found)),
    )
