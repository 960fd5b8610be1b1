-- ===== src/Config/Privileges/Allowing.antt =====
-- The white hosts of config/mycat-privileges.js: whom they let in from where.
use mycat_js.Prelude.{
  ◌≡◌, refl, ap, ◌∙◌, sym, Bool, true, false, ◌||◌, List, [], ◌∷◌, ◌++◌, Option, none, some,
  Bool-cases, inl, inr, ◌&&◌, if◌then◌else◌,
}
use mathlib.Core.Logic.{◌↔◌}
use mycat_js.Sql.Chars.{Text}
use mycat_js.Util.Scheduler.Names.{same_text_eq, same_text_refl}
use mycat_js.Config.{UserConfig, MycatConfig}
use mycat_js.Config.Privileges.{
  is_empty, entry, user_entry, is_named, any_named, any_mask, is_some, host_named,
  check_white_host_policy,
}

-- The list has the element, at some place.
abbrev pub Within : {A : Type 0} → A → List A → Type 0
Within {A} x xs = (before : List A) × (after : List A) × (xs ≡ before ++ (x ∷ after))

abbrev pub Has : Option Text → List UserConfig → Type 0
Has user users = (conf : UserConfig) × Within conf users × (user ≡ some conf.name)

behind : {A : Type 0} (x y : A) (ys : List A) → Within x ys → Within x (y ∷ ys)
behind x y ys (before, after, e) = (y ∷ before, after, ap (◌∷◌ y) e)

is_named_eq :
    (user : Option Text) (conf : UserConfig) → is_named user conf ≡ true → user ≡ some conf.name
unfolding is_named
is_named_eq none conf h = cc
is_named_eq (some u) conf h = ap some (sym (same_text_eq conf.name u h))

eq_is_named :
    (user : Option Text) (conf : UserConfig) → user ≡ some conf.name → is_named user conf ≡ true
unfolding is_named
eq_is_named user conf h = ap (λ u. is_named u conf) h ∙ same_text_refl conf.name

named_within :
    (user : Option Text) (conf : UserConfig) (before after : List UserConfig)
    → is_named user conf ≡ true
    → any_named user (before ++ (conf ∷ after)) ≡ true
unfolding any_named
named_within user conf [] after h = rw h refl
named_within user conf (c ∷ before) after h = elim (Bool-cases (is_named user c)) [
  | inl e ↦ rw e refl
  | inr e ↦ rw e (named_within user conf before after h)
]

any_named-Has :
    (user : Option Text) (users : List UserConfig) → any_named user users ≡ true → Has user users
unfolding any_named
any_named-Has user [] h = cc
any_named-Has user (c ∷ rest) h = elim (Bool-cases (is_named user c)) [
  | inl e ↦ (c, ([], rest, refl), is_named_eq user c e)
  | inr e ↦
      (let (conf, within, n) = any_named-Has user rest (rw e at h) in
        (conf, behind conf c rest within, n))
]

Has-any_named :
    (user : Option Text) (users : List UserConfig) → Has user users → any_named user users ≡ true
Has-any_named user users (conf, (before, after, e), n) =
    ap (any_named user) e ∙ named_within user conf before after (eq_is_named user conf n)

abbrev Mask : Type 0
Mask = (Text → Bool) × List UserConfig

-- A mask that lets the host in, with a user of the name.
abbrev pub Masked : Option Text → Text → List Mask → Type 0
Masked user host masks = (mask : Mask) × Within mask masks × (mask.0 host ≡ true) × Has user mask.1

mask_within :
    (user : Option Text) (host : Text) (mask : Mask) (before after : List Mask)
    → mask.0 host ≡ true
    → any_named user mask.1 ≡ true
    → any_mask user host (before ++ (mask ∷ after)) ≡ true
unfolding any_mask
mask_within user host (test, users) [] after h n = rw (h, n) refl
mask_within user host mask ((t, us) ∷ before) after h n =
    let later = mask_within user host mask before after h n in
    elim (Bool-cases (t host)) [
      | inl e ↦ elim (Bool-cases (any_named user us)) [
        | inl f ↦ rw (e, f) refl
        | inr f ↦ rw (e, f) later
      ]
      | inr e ↦ rw e later
    ]

any_mask-Masked :
    (user : Option Text) (host : Text) (masks : List Mask)
    → any_mask user host masks ≡ true
    → Masked user host masks
unfolding any_mask
any_mask-Masked user host [] h = cc
any_mask-Masked user host ((t, us) ∷ rest) h =
    let step : any_mask user host rest ≡ true → Masked user host ((t, us) ∷ rest) = λ g.
      (let (mask, within, at, n) = any_mask-Masked user host rest g in
        (mask, behind mask (t, us) rest within, at, n)) in
    elim (Bool-cases (t host)) [
      | inl e ↦ elim (Bool-cases (any_named user us)) [
        | inl f ↦ ((t, us), ([], rest, refl), e, any_named-Has user us f)
        | inr f ↦ step (rw (e, f) at h)
      ]
      | inr e ↦ step (rw e at h)
    ]

Masked-any_mask :
    (user : Option Text) (host : Text) (masks : List Mask)
    → Masked user host masks
    → any_mask user host masks ≡ true
Masked-any_mask user host masks (mask, (before, after, e), at, n) =
    ap (any_mask user host) e
    ∙ mask_within user host mask before after at (Has-any_named user mask.1 n)

-- Whom the configuration lets in from a host: where it names no host, every user that it has;
-- otherwise the users of the host's entry, and those of each mask that the host fits.
pub data Allowed (c : MycatConfig) (user : Option Text) (host : Text) : Type 0 where
  from_anywhere :
      c.firewall.white_hosts ≡ []
      → c.firewall.white_host_masks ≡ []
      → (conf : UserConfig) → user_entry user c.users ≡ some conf
      → Allowed c user host
  from_host :
      (users : List UserConfig)
      → entry host c.firewall.white_hosts ≡ some users
      → Has user users
      → Allowed c user host
  from_mask : Masked user host c.firewall.white_host_masks → Allowed c user host

is_empty_eq {ℓ} : {A : Type ℓ} (xs : List A) → is_empty xs ≡ true → xs ≡ []
is_empty_eq [] h = refl
is_empty_eq (x ∷ xs) h = cc

some_of {ℓ} : {A : Type ℓ} (o : Option A) → is_some o ≡ true → (a : A) × (o ≡ some a)
some_of none h = cc
some_of (some a) h = (a, refl)

host_named-Has :
    (user : Option Text) (o : Option (List UserConfig))
    → host_named user o ≡ true
    → (users : List UserConfig) × (o ≡ some users) × Has user users
host_named-Has user none h = cc
host_named-Has user (some users) h = (users, refl, any_named-Has user users h)

listed-Allowed :
    (c : MycatConfig) (user : Option Text) (host : Text)
    → (if host_named user (entry host c.firewall.white_hosts)
        then true
        else any_mask user host c.firewall.white_host_masks)
      ≡ true
    → Allowed c user host
listed-Allowed c user host h =
    elim (Bool-cases (host_named user (entry host c.firewall.white_hosts))) [
      | inl e ↦
          (let (users, at, has) = host_named-Has user (entry host c.firewall.white_hosts) e in
            from_host users at has)
      | inr e ↦ from_mask (any_mask-Masked user host c.firewall.white_host_masks (rw e at h))
    ]

check-Allowed :
    (c : MycatConfig) (user : Option Text) (host : Text)
    → check_white_host_policy c user host ≡ true
    → Allowed c user host
unfolding check_white_host_policy
check-Allowed c user host h = elim (Bool-cases (is_empty c.firewall.white_hosts)) [
  | inl e ↦ elim (Bool-cases (is_empty c.firewall.white_host_masks)) [
    | inl f ↦
        (let (conf, at) = some_of (user_entry user c.users) (rw (e, f) at h) in
          from_anywhere (is_empty_eq c.firewall.white_hosts e)
            (is_empty_eq c.firewall.white_host_masks f) conf at)
    | inr f ↦ listed-Allowed c user host (rw (e, f) at h)
  ]
  | inr e ↦ listed-Allowed c user host (rw e at h)
]

and_false : (a b : Bool) → b ≡ false → (a && b) ≡ false
and_false true b h = h
and_false false b h = refl

or_true : (a b : Bool) → b ≡ true → (a || b) ≡ true
or_true true b h = refl
or_true false b h = h

listed_true :
    (c : MycatConfig) (user : Option Text) (host : Text)
    → (is_empty c.firewall.white_hosts && is_empty c.firewall.white_host_masks) ≡ false
    → (host_named user (entry host c.firewall.white_hosts)
        || any_mask user host c.firewall.white_host_masks)
      ≡ true
    → check_white_host_policy c user host ≡ true
unfolding check_white_host_policy
listed_true c user host e h =
    rw e (elim (Bool-cases (host_named user (entry host c.firewall.white_hosts))) [
      | inl f ↦ rw f refl
      | inr f ↦ rw f (rw f at h)
    ])

full_entry :
    {A : Type 0} (key : Text) (xs : List (Text × A)) (a : A)
    → entry key xs ≡ some a
    → is_empty xs ≡ false
unfolding entry
full_entry key [] a h = cc
full_entry key (x ∷ xs) a h = refl

full-Within : {A : Type 0} (x : A) (xs : List A) → Within x xs → is_empty xs ≡ false
full-Within x xs ([], after, e) = ap is_empty e
full-Within x xs (b ∷ before, after, e) = ap is_empty e

Allowed-check :
    (c : MycatConfig) (user : Option Text) (host : Text)
    → Allowed c user host
    → check_white_host_policy c user host ≡ true
unfolding check_white_host_policy
Allowed-check c user host (from_anywhere e f conf at) = rw (e, f, at) refl
Allowed-check c user host (from_host users at has) =
    listed_true c user host (rw (full_entry host c.firewall.white_hosts users at) refl)
      (rw (at, Has-any_named user users has) refl)
Allowed-check c user host (from_mask (mask, within, at, has)) =
    listed_true c user host
      (and_false (is_empty c.firewall.white_hosts) _
        (full-Within mask c.firewall.white_host_masks within))
      (or_true (host_named user (entry host c.firewall.white_hosts)) _
        (Masked-any_mask user host c.firewall.white_host_masks (mask, within, at, has)))

-- The policy lets a user in from a host exactly if the configuration names no host and has the
-- user, or if a user of that name is among those of the host's entry, or among those of a mask
-- that the host fits.
pub check_white_host_policy_iff :
    (c : MycatConfig) (user : Option Text) (host : Text)
    → (check_white_host_policy c user host ≡ true) ↔ Allowed c user host
check_white_host_policy_iff c user host = (check-Allowed c user host, Allowed-check c user host)
