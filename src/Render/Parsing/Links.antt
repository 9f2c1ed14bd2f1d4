-- ===== src/Render/Parsing/Links.antt =====
-- internal/render/render.go, `Parse`: which tickets links can name.
use mathlib.Core.List.{Memᴰ}
use slackbot_hubspot.Base.{
  ◌≡◌, refl, sym, ap, subst, ◌∙◌, ◌⊎◌, inl, inr, String, true, false, Option, none, some, List, [],
  ◌∷◌, is_set, arith, Bool-cases, eq_iff,
}
use slackbot_hubspot.Base.Texts.{trim_right}
use slackbot_hubspot.Render.Tokens.{Url, is_digits, is_trailing, is_hubspot, path_ticket}
use slackbot_hubspot.Render.Parsing.{parts, breaks_rules, link_ticket, then_follow, follow}

module _ (parse_url : String → Option Url) (account_id : String) where
  -- What holds of a link that names a ticket.
  record Names (id : String) (u : Url) : Type 0 where
    pub hubspot : is_hubspot u.hostname ≡ true
    pub secure : u.scheme ≡ "https"
    pub anonymous : u.has_user ≡ false
    pub portless : is_set u.port ≡ false
    pub owned : path_ticket (parts u) ≡ (account_id, id)
    pub numbered : is_digits id ≡ true

  breaks_rules-Names :
      (u : Url) (found : String × String) (before : String)
      → path_ticket (parts u) ≡ found
      → is_hubspot u.hostname ≡ true
      → breaks_rules account_id u found before ≡ false
      → Names found.1 u
  breaks_rules-Names u (account, id) before e ours good = record {
    hubspot = ours;
    secure = (eq_iff u.scheme "https").0 (ground (arith, good));
    anonymous = ground (arith, good);
    portless = ground (arith, good);
    owned = e ∙ ap (λ a. (a, id)) ((eq_iff account account_id).0 (ground (arith, good)));
    numbered = ground (arith, good);
  }

  link_ticket-Names :
      (o : Option Url) (found id : String)
      → link_ticket parse_url account_id o found ≡ some id
      → (id ≡ found) ⊎ ((u : Url) × (o ≡ some u) × Names id u)
  unfolding link_ticket
  link_ticket-Names none found id h = inl (ground (arith, h))
  link_ticket-Names (some u) found id h = elim (Bool-cases (is_hubspot u.hostname)) [
    | inr other ↦ inl (ground (arith, h, other))
    | inl ours ↦ elim (Bool-cases (breaks_rules account_id u (path_ticket (parts u)) found)) [
      | inl bad ↦ ground (arith, h, ours, bad)
      | inr good ↦
          let names = breaks_rules-Names u (path_ticket (parts u)) found refl ours good in
          let same : (path_ticket (parts u)).1 ≡ id = ground (arith, h, ours, good) in
          inr (u, refl, subst (λ i. Names i u) same names)
    ]
  ]

  record Source (ls : List String) (id : String) : Type 0 where
    pub link : String
    pub url : Url
    pub member : Memᴰ link ls
    pub parsed : parse_url (trim_right is_trailing link) ≡ some url
    pub names : Names id url

  follow-Names :
      (ls : List String) (found id : String)
      → follow parse_url account_id ls found ≡ some id
      → (id ≡ found) ⊎ Source ls id
  unfolding follow
  follow-Names [] found id h = inl (ground (arith, h))
  follow-Names (l ∷ ls) found id h =
      first (link_ticket parse_url account_id (parse_url (trim_right is_trailing l)) found) refl h
        (λ next. follow-Names ls next id)
    where
      first :
          (o : Option String)
          → link_ticket parse_url account_id (parse_url (trim_right is_trailing l)) found ≡ o
          → then_follow parse_url account_id (follow parse_url account_id ls) o ≡ some id
          → ((next : String)
              → follow parse_url account_id ls next ≡ some id
              → (id ≡ next) ⊎ Source ls id)
          → (id ≡ found) ⊎ Source (l ∷ ls) id
      first none e k rest = ground (arith, k)
      first (some next) e k rest = elim (rest next k) [
        | inr later ↦ inr (record {
          link = later.link;
          url = later.url;
          member = Memᴰ.tail later.member;
          parsed = later.parsed;
          names = later.names;
        })
        | inl same ↦ elim (link_ticket-Names (parse_url (trim_right is_trailing l)) found next e) [
          | inl before ↦ inl (same ∙ before)
          | inr (u, q, n) ↦ inr (record {
            link = l;
            url = u;
            member = Memᴰ.head refl;
            parsed = q;
            names = subst (λ i. Names i u) (sym same) n;
          })
        ]
      ]

  -- A ticket that the links of a message name comes from one of them: a link by https to HubSpot,
  -- without a user or a port, to a ticket of the configured account, whose ID is of digits.
  pub linked_ticket_owned :
      (ls : List String) (id : String)
      → follow parse_url account_id ls "" ≡ some id
      → is_set id ≡ true
      → (l : String) × (u : Url) × Memᴰ l ls
        × (parse_url (trim_right is_trailing l) ≡ some u)
        × (is_hubspot u.hostname ≡ true)
        × (u.scheme ≡ "https")
        × (u.has_user ≡ false)
        × (u.port ≡ "")
        × (path_ticket (parts u) ≡ (account_id, id))
        × (is_digits id ≡ true)
  linked_ticket_owned ls id h set = elim (follow-Names ls "" id h) [
    | inl empty ↦ ground (arith, eq_iff id "", empty, set)
    | inr s ↦
        let n = s.names in
        (
          s.link,
          s.url,
          s.member,
          s.parsed,
          n.hubspot,
          n.secure,
          n.anonymous,
          portless s.url.port n.portless,
          n.owned,
          n.numbered,
        )
  ]
    where
      portless : (p : String) → is_set p ≡ false → p ≡ ""
      portless p q = ground (arith, eq_iff p "")
