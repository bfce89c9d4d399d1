-- ===== src/Options/Auth/Order.antt =====
-- pkg/options/auth.go: the type of credentials does not depend on the order of Go's map.
use ydbops.Base.{
  ◌≡◌, refl, ap, ◌∙◌, Bool, true, false, not, ◌&&◌, List, [], ◌∷◌, ◌==◌, if◌then◌else◌, arith,
  length, All, All-at, Memᴰ, text_comparable,
}
use ydbops.Options.Auth.{
  Machine, Auths, AuthType, unset, anonymous, static, iam_token, iam_creds, iam_metadata,
  multiple_at_once, is_set, key_if, explicit_keys, pick, determine_explicit_auth_type,
  determine_implicit_auth_type, multiple_specified, Validated, rejected, validate_as,
  validate_explicit, validate_auth,
}

-- An order gives back as many keys, each one of those it was given.
abbrev pub IsOrder : (List AuthType → List AuthType) → Type 0
IsOrder order =
    (keys : List AuthType)
    → (length (order keys) ≡ length keys) × All (λ k. Memᴰ k keys) (order keys)

-- The types that flags can ask for.
abbrev pub IsExplicit : AuthType → Type 0
IsExplicit static = Unit
IsExplicit iam_token = Unit
IsExplicit iam_creds = Unit
IsExplicit iam_metadata = Unit
IsExplicit _ = ⊥

-- The credentials that the flags ask for, with no loop: by the number of types.
abbrev pub validate_specified : Machine → Auths → List AuthType → Validated
validate_specified m auths [] = validate_as m auths (determine_implicit_auth_type m)
validate_specified m auths (k ∷ []) = validate_as m auths k
validate_specified m auths _ = rejected multiple_specified

key_if-IsExplicit :
    (b : Bool) (k : AuthType) (keys : List AuthType)
    → IsExplicit k
    → All IsExplicit keys
    → All IsExplicit (key_if b k keys)
key_if-IsExplicit true k keys p h = (p, h)
key_if-IsExplicit false k keys p h = h

pub explicit_keys-IsExplicit :
    (m : Machine) (auths : Auths) → All IsExplicit (explicit_keys m auths)
unfolding explicit_keys
explicit_keys-IsExplicit m auths =
    key_if-IsExplicit
      (not (auths.static_auth.user == "")
        && (if not (auths.static_auth.password_file == "")
            then true
            else is_set (m.lookup_env "YDB_PASSWORD")))
      static _ tt
      (key_if-IsExplicit auths.metadata_enabled iam_metadata _ tt (
        key_if-IsExplicit (not (auths.token_auth.token_file == "")) iam_token _ tt (
          key_if-IsExplicit
            (not (auths.creds_auth.endpoint == "") && not (auths.creds_auth.key_filename == ""))
            iam_creds [] tt tt)))

-- One type of the flags is taken as it is, and more are refused.
pick_explicit :
    (m : Machine) (auths : Auths) (k : AuthType) (keys : List AuthType)
    → IsExplicit k
    → validate_explicit m auths (pick unset (k ∷ keys)) ≡ validate_specified m auths (k ∷ keys)
pick_explicit m auths static [] p = refl
pick_explicit m auths static (j ∷ keys) p = refl
pick_explicit m auths iam_token [] p = refl
pick_explicit m auths iam_token (j ∷ keys) p = refl
pick_explicit m auths iam_creds [] p = refl
pick_explicit m auths iam_creds (j ∷ keys) p = refl
pick_explicit m auths iam_metadata [] p = refl
pick_explicit m auths iam_metadata (j ∷ keys) p = refl
pick_explicit m auths unset keys p = absurd p
pick_explicit m auths anonymous keys p = absurd p
pick_explicit m auths multiple_at_once keys p = absurd p

pick_any :
    (m : Machine) (auths : Auths) (keys : List AuthType)
    → All IsExplicit keys
    → validate_explicit m auths (pick unset keys) ≡ validate_specified m auths keys
pick_any m auths [] h = refl
pick_any m auths (k ∷ keys) (p, h) = pick_explicit m auths k keys p

sole_key : {k j : AuthType} → Memᴰ k (j ∷ []) → k ≡ j
sole_key (Memᴰ.head e) = e
sole_key (Memᴰ.tail m) = elim m [ ]

-- Another order has the same number of keys, and where this is one the same key.
ordered :
    (m : Machine) (auths : Auths) (keys given : List AuthType)
    → length given ≡ length keys
    → All (λ k. Memᴰ k keys) given
    → validate_specified m auths given ≡ validate_specified m auths keys
ordered m auths [] [] e h = refl
ordered m auths [] (j ∷ given) e h = absurd (omega (arith, e))
ordered m auths (k ∷ []) [] e h = absurd (omega (arith, e))
ordered m auths (k ∷ []) (j ∷ []) e (inside, h) = ap (validate_as m auths) (sole_key inside)
ordered m auths (k ∷ []) (j ∷ i ∷ given) e h = absurd (omega (arith, e))
ordered m auths (k ∷ l ∷ keys) [] e h = absurd (omega (arith, e))
ordered m auths (k ∷ l ∷ keys) (j ∷ []) e h = absurd (omega (arith, e))
ordered m auths (k ∷ l ∷ keys) (j ∷ i ∷ given) e h = refl

still_IsExplicit :
    (keys given : List AuthType)
    → All IsExplicit keys
    → All (λ k. Memᴰ k keys) given
    → All IsExplicit given
still_IsExplicit keys [] h inside = tt
still_IsExplicit keys (k ∷ given) h (m, inside) =
    (All-at IsExplicit keys h m, still_IsExplicit keys given h inside)

-- Whatever the order in which Go goes through the map of the types that the flags ask for, `Validate`
-- does the same: with one type it validates that, with more it fails, and with none it validates the
-- type that the environment implies.
pub validate_auth-specified :
    (m : Machine) (order : List AuthType → List AuthType) (auths : Auths)
    → IsOrder order
    → validate_auth m order auths ≡ validate_specified m auths (explicit_keys m auths)
unfolding validate_auth determine_explicit_auth_type
validate_auth-specified m order auths any =
    let keys = explicit_keys m auths in
    let (e, inside) = any keys in
    pick_any m auths (order keys)
      (still_IsExplicit keys (order keys) (explicit_keys-IsExplicit m auths) inside)
    ∙ ordered m auths keys (order keys) e inside
