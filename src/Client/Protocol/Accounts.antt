-- ===== src/Client/Protocol/Accounts.antt =====
-- util/client.py: the accounts that the client remembers, after a message with an account tag and
-- after NICK.
use py_burly_bot.Common.{
  List, [], ◌∷◌, Option, none, some, Text, text_eq, ◌==◌, ◌&&◌, codes, lookup, lookup-insert,
  lookup-erase, if◌then◌else◌, ◌≡◌, refl, arith, inl, inr, Bool-cases, Option-cases, eq_iff,
}
use py_burly_bot.State.Model.{Network, Outcome, ok, raise}
use py_burly_bot.State.Membership.{truthy, userrename}
use py_burly_bot.Dispatch.Fire.{real_account}
use py_burly_bot.Client.Masks.{Hostmask, process_hostmask}
use py_burly_bot.Client.Protocol.{
  Message, Notice, Client, after, keep_account, drop_account, account_for, forget_legacy_account,
  move_account, rename_other, renamed_by, irc_nick,
}

module _ (fold lower nick_changed : Text → Text) where
  -- What a message says of the sender's account is what a later message of the same sender without
  -- a tag is taken to say.
  pub account_for-remembered :
      (m : Message) (c : Client)
      → account_for fold lower nick_changed
          (record m { tags = [] })
          (account_for fold lower nick_changed m c).1
        ≡ account_for fold lower nick_changed m c
  unfolding account_for lookup
  account_for-remembered m c = elim (Option-cases (process_hostmask m.prefix)) [
    | inl e ↦ ground (arith, e)
    | inr (w, e) ↦ elim (Option-cases (lookup (codes "account") m.tags)) [
      | inl untagged ↦ ground (arith, e, untagged)
      | inr (tag, tagged) ↦ elim (Option-cases (real_account tag)) [
        | inl out ↦ ground (
          arith,
          e,
          tagged,
          out,
          lookup-erase (fold w.nick) (fold w.nick) c.accounts,
          eq_iff (fold w.nick) (fold w.nick),
        )
        | inr (a, real) ↦ ground (
          arith,
          e,
          tagged,
          real,
          lookup-insert (fold w.nick) (fold w.nick) a c.accounts,
          eq_iff (fold w.nick) (fold w.nick),
        )
      ]
    ]
  ]

  -- The account under a key once `old` has become `new`.
  abbrev pub moved : Text → Text → Client → Text → Option Text
  moved old new c k =
      let a = lookup (fold old) c.accounts in
      if truthy a && fold new == k then a else if fold old == k then none else lookup k c.accounts

  lookup-move_account :
      (old new : Text) (c : Client) (k : Text)
      → lookup k (move_account fold lower nick_changed old new c).accounts ≡ moved old new c k
  unfolding move_account keep_account
  lookup-move_account old new c k = go (lookup (fold old) c.accounts)
    where
      go :
          (a : Option Text)
          → lookup k
              (keep_account fold lower nick_changed new a
                (drop_account fold lower nick_changed old c)).accounts
            ≡ (if truthy a && fold new == k
                then a
                else if fold old == k
                then none
                else lookup k c.accounts)
      go none = lookup-erase (fold old) k c.accounts
      go (some []) = lookup-erase (fold old) k c.accounts
      go (some (x ∷ xs)) = ground (
        arith,
        lookup-erase (fold old) k c.accounts,
        lookup-insert (fold new) k (x ∷ xs) (drop_account fold lower nick_changed old c).accounts,
      )

  accounts-rename_other :
      (m : Message) (w : Hostmask) (new : Text) (account : Option Text) (c : Client)
      → (after (rename_other fold lower nick_changed m w new account c)).accounts ≡ c.accounts
  accounts-rename_other m w new account c = go c.state refl
    where
      go :
          (s : Option Network)
          → c.state ≡ s
          → (after (rename_other fold lower nick_changed m w new account c)).accounts ≡ c.accounts
      go none e = rw e refl
      go (some n) e =
          rw e (returned _ (userrename w.nick new (some w.ident) (some w.host) (some m.prefix) n))
        where
          returned :
              (x : Notice) (o : Outcome Network)
              → (after (renamed_by fold lower nick_changed x c o)).accounts ≡ c.accounts
          returned x (ok n') = refl
          returned x (raise y n') = refl

  -- After NICK the account of the old nick, where there is one, is that of the new nick, the old nick
  -- has none unless both are the same key, and every other key keeps its account: the new nick too
  -- where the old one had none.
  pub irc_nick-accounts :
      (m : Message) (c : Client) (w : Hostmask) (new : Text) (rest : List Text) (k : Text)
      → process_hostmask m.prefix ≡ some w
      → m.params ≡ new ∷ rest
      → lookup k (after (irc_nick fold lower nick_changed m c)).accounts ≡ moved w.nick new c k
  unfolding irc_nick forget_legacy_account
  irc_nick-accounts m c w new rest k e p = elim (Bool-cases (w.nick == c.nickname)) [
    | inl own ↦ rw (e, irc_nick, p, own) (lookup-move_account w.nick new c k)
    | inr other ↦
        rw (e, irc_nick, p, other)
          (rw (accounts-rename_other m w new) (lookup-move_account w.nick new c k))
  ]
