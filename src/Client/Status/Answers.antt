-- ===== src/Client/Status/Answers.antt =====
-- util/client.py: which Deferreds of the STATUS lookups have an answer.
use py_burly_bot.Common.{
  ℕ, suc, ◌<◌, Bool, true, false, List, [], ◌∷◌, ◌++◌, Option, none, some, Text, text_eq, nat_eq,
  ◌==◌, ◌||◌, ◌&&◌, not, Dict, lookup, has_key, contains, discard, lookup-insert, lookup-erase,
  contains-add, contains-discard, any, map, if◌then◌else◌, ◌≡◌, refl, arith, ◌⊎◌, inl, inr,
  Bool-cases, Option-cases, eq_iff, codes, leb,
}
use py_burly_bot.Client.Status.{
  Status, split_words, take_level, take_words, handle_legacy_status_reply, list_or_none, keys_of,
  valid, wait_for, resolve_legacy_account, finish_legacy_status, legacy_status_timeout, abandon_all,
  abandon_legacy_status,
}
use py_burly_bot.Client.Masks.{irc_casefold, process_hostmask}

abbrev pub answered : ℕ → List (ℕ × Option Text) → Bool
answered d = any (λ p. p.0 == d)

abbrev pub waiting : Text → Status → List ℕ
waiting key s = list_or_none (lookup key s.pending)

-- Every key that waits has a timer and no other has one; a Deferred has its answer or waits, never
-- both, and under one key.
pub record IsAnswering (s : Status) : Type 0 where
  pub timed : (k : Text) → has_key k s.pending ≡ contains k s.timeouts
  pub known : (d : ℕ) → answered d s.fired ≡ true → d < s.created
  pub counted : (k : Text) (d : ℕ) → contains d (waiting k s) ≡ true → d < s.created
  pub kept :
      (d : ℕ)
      → d < s.created
      → (answered d s.fired ≡ true) ⊎ ((k : Text) × (contains d (waiting k s) ≡ true))
  pub apart : (k : Text) (d : ℕ) → contains d (waiting k s) ≡ true → answered d s.fired ≡ false
  pub alone :
      (j k : Text) (d : ℕ)
      → contains d (waiting j s) ≡ true
      → contains d (waiting k s) ≡ true
      → j ≡ k

answered-append :
    (d : ℕ) (xs ys : List (ℕ × Option Text))
    → answered d (xs ++ ys) ≡ (answered d xs || answered d ys)
unfolding any
answered-append d [] ys = refl
answered-append d (x ∷ xs) ys = ground (arith, answered-append d xs ys)

answered-map :
    (d : ℕ) (account : Option Text) (ds : List ℕ)
    → answered d (map (λ e. (e, account)) ds) ≡ contains d ds
unfolding any contains
answered-map d account [] = refl
answered-map d account (e ∷ ds) = ground (arith, answered-map d account ds)

contains-append :
    (d : ℕ) (xs ys : List ℕ) → contains d (xs ++ ys) ≡ (contains d xs || contains d ys)
unfolding contains
contains-append d [] ys = refl
contains-append d (x ∷ xs) ys = ground (arith, contains-append d xs ys)

contains-one : (d e : ℕ) → contains d (e ∷ []) ≡ (e == d)
unfolding contains
contains-one d e = ground arith

contains-none : (d : ℕ) → contains d [] ≡ false
unfolding contains
contains-none d = refl

module _ (second : ℕ) (lower fold upper : Text → Text) (is_digit : Text → Bool)
    (to_int : Text → Option ℕ) where
  waiting-finish :
      (now : ℕ) (key : Text) (account : Option Text) (b : Bool) (s : Status) (k : Text) (d : ℕ)
      → contains d (
          waiting k
            (finish_legacy_status second lower fold upper is_digit to_int now key account b s))
        ≡ (not (key == k) && contains d (waiting k s))
  unfolding finish_legacy_status
  waiting-finish now key account b s k d =
      ground (arith, lookup-erase key k s.pending, contains-none d)

  answered-finish :
      (now : ℕ) (key : Text) (account : Option Text) (b : Bool) (s : Status) (d : ℕ)
      → answered d
          (finish_legacy_status second lower fold upper is_digit to_int now key account b s).fired
        ≡ (answered d s.fired || contains d (waiting key s))
  unfolding finish_legacy_status
  answered-finish now key account b s d = ground (
    arith,
    answered-append d s.fired (map (λ e. (e, account)) (waiting key s)),
    answered-map d account (waiting key s),
  )

  finish-IsAnswering :
      (now : ℕ) (key : Text) (account : Option Text) (b : Bool) (s : Status)
      → IsAnswering s
      → IsAnswering
          (finish_legacy_status second lower fold upper is_digit to_int now key account b s)
  finish-IsAnswering now key account b s v = record {
    timed = λ k.
        unfold finish_legacy_status in
        ground (arith, lookup-erase key k s.pending, contains-discard key k s.timeouts, v.timed k);
    known = λ d h.
        unfold finish_legacy_status in
        ground (arith, answered-finish now key account b s d, v.known d, v.counted key d);
    counted = λ k d h.
        unfold finish_legacy_status in
        ground (arith, waiting-finish now key account b s k d, v.counted k d);
    kept = λ d h. stays d (v.kept d (unfold finish_legacy_status in h));
    apart = λ k d h. ground (
      arith,
      waiting-finish now key account b s k d,
      answered-finish now key account b s d,
      v.apart k d,
      v.alone key k d,
      eq_iff key k,
    );
    alone = λ j k d h h'.
        v.alone j k d (ground (arith, waiting-finish now key account b s j d))
          (ground (arith, waiting-finish now key account b s k d));
  }
    where
      f : Status
      f = finish_legacy_status second lower fold upper is_digit to_int now key account b s

      stays :
          (d : ℕ)
          → (answered d s.fired ≡ true) ⊎ ((k : Text) × (contains d (waiting k s) ≡ true))
          → (answered d f.fired ≡ true) ⊎ ((k : Text) × (contains d (waiting k f) ≡ true))
      stays d (inl h) = inl (ground (arith, answered-finish now key account b s d))
      stays d (inr (k, h)) = elim (Bool-cases (key == k)) [
        | inl e ↦
            let same : key ≡ k = (eq_iff key k).0 e in
            inl (ground (arith, answered-finish now key account b s d, same))
        | inr e ↦ inr (k, ground (arith, waiting-finish now key account b s k d))
      ]

  waiting-wait_for :
      (nick key : Text) (s : Status) (k : Text) (d : ℕ)
      → contains d (waiting k (wait_for second lower fold upper is_digit to_int nick key s))
        ≡ (key == k && s.created == d || contains d (waiting k s))
  waiting-wait_for nick key s k d = elim (Option-cases (lookup key s.pending)) [
    | inl e ↦ ground (
      arith,
      e,
      lookup-insert key k (s.created ∷ []) s.pending,
      contains-one d s.created,
      contains-none d,
      eq_iff key k,
    )
    | inr (ds, e) ↦ ground (
      arith,
      e,
      lookup-insert key k (ds ++ s.created ∷ []) s.pending,
      contains-append d ds (s.created ∷ []),
      contains-one d s.created,
      eq_iff key k,
    )
  ]

  wait_for-fired :
      (nick key : Text) (s : Status)
      → (wait_for second lower fold upper is_digit to_int nick key s).fired ≡ s.fired
  wait_for-fired nick key s = ground arith

  wait_for-created :
      (nick key : Text) (s : Status)
      → (wait_for second lower fold upper is_digit to_int nick key s).created ≡ suc s.created
  wait_for-created nick key s = ground arith

  wait_for-timed :
      (nick key : Text) (s : Status) (k : Text)
      → ((j : Text) → has_key j s.pending ≡ contains j s.timeouts)
      → has_key k (wait_for second lower fold upper is_digit to_int nick key s).pending
        ≡ contains k (wait_for second lower fold upper is_digit to_int nick key s).timeouts
  wait_for-timed nick key s k timed = elim (Option-cases (lookup key s.pending)) [
    | inl e ↦ ground (
      arith,
      e,
      lookup-insert key k (s.created ∷ []) s.pending,
      contains-add key k s.timeouts,
      timed k,
      eq_iff key k,
    )
    | inr (ds, e) ↦ ground (
      arith,
      e,
      lookup-insert key k (ds ++ s.created ∷ []) s.pending,
      timed k,
      timed key,
      eq_iff key k,
    )
  ]

  wait_for-IsAnswering :
      (nick key : Text) (s : Status)
      → IsAnswering s
      → IsAnswering (wait_for second lower fold upper is_digit to_int nick key s)
  wait_for-IsAnswering nick key s v = record {
    timed = λ k. wait_for-timed nick key s k v.timed;
    known = λ d h.
        rw (wait_for-created nick key s)
          (omega (arith, v.known d (rw (wait_for-fired nick key s) at h)));
    counted = λ k d h.
        rw (wait_for-created nick key s)
          (ground (arith, waiting-wait_for nick key s k d, v.counted k d));
    kept = λ d h. stays d (rw (wait_for-created nick key s) at h);
    apart = λ k d h.
        rw (wait_for-fired nick key s)
          (ground (arith, waiting-wait_for nick key s k d, v.apart k d, v.known d));
    alone = λ j k d h h'. ground (
      arith,
      waiting-wait_for nick key s j d,
      waiting-wait_for nick key s k d,
      v.counted j d,
      v.counted k d,
      v.alone j k d,
      eq_iff key j,
      eq_iff key k,
    );
  }
    where
      f : Status
      f = wait_for second lower fold upper is_digit to_int nick key s

      stays :
          (d : ℕ)
          → d < suc s.created
          → (answered d f.fired ≡ true) ⊎ ((k : Text) × (contains d (waiting k f) ≡ true))
      stays d h = elim (Bool-cases (s.created == d)) [
        | inl e ↦ inr (key, ground (arith, waiting-wait_for nick key s key d, eq_iff key key))
        | inr e ↦ elim (v.kept d (ground arith)) [
          | inl a ↦ inl (rw (wait_for-fired nick key s) a)
          | inr (k, a) ↦ inr (k, ground (arith, waiting-wait_for nick key s k d))
        ]
      ]

  answered-one : (d e : ℕ) (account : Option Text) → answered d ((e, account) ∷ []) ≡ (e == d)
  unfolding any
  answered-one d e account = ground arith

  cached-IsAnswering :
      (account : Option Text) (s : Status)
      → IsAnswering s
      → IsAnswering
          (record s { fired = s.fired ++ (s.created, account) ∷ []; created = suc s.created })
  cached-IsAnswering account s v = record {
    timed = v.timed;
    known = λ d h. ground (
      arith,
      answered-append d s.fired ((s.created, account) ∷ []),
      answered-one d s.created account,
      v.known d,
    );
    counted = λ k d h. omega (arith, v.counted k d h);
    kept = λ d h. elim (Bool-cases (s.created == d)) [
      | inl e ↦ inl (
          ground (
            arith,
            answered-append d s.fired ((s.created, account) ∷ []),
            answered-one d s.created account,
          ))
      | inr e ↦ elim (v.kept d (ground arith)) [
        | inl a ↦ inl (ground (arith, answered-append d s.fired ((s.created, account) ∷ [])))
        | inr p ↦ inr p
      ]
    ];
    apart = λ k d h. ground (
      arith,
      answered-append d s.fired ((s.created, account) ∷ []),
      answered-one d s.created account,
      v.apart k d h,
      v.counted k d h,
    );
    alone = v.alone;
  }

  -- A STATUS lookup keeps the books right: every waiting key and no other has a timer, and every
  -- Deferred has its answer or waits under one key, never both.
  pub resolve-IsAnswering :
      (nick : Text) (now : ℕ) (s : Status)
      → IsAnswering s
      → IsAnswering (resolve_legacy_account second lower fold upper is_digit to_int nick now s)
  unfolding resolve_legacy_account
  resolve-IsAnswering nick now s v =
      elim (Option-cases (valid now (lookup (irc_casefold lower nick) s.cache))) [
        | inl e ↦
            rw (e, resolve_legacy_account) (wait_for-IsAnswering nick (irc_casefold lower nick) s v)
        | inr (account, e) ↦ rw (e, resolve_legacy_account) (cached-IsAnswering account s v)
      ]

  -- The timeout of a STATUS lookup keeps the books right: every waiting key and no other has a timer,
  -- and every Deferred has its answer or waits under one key, never both.
  pub timeout-IsAnswering :
      (now : ℕ) (key : Text) (s : Status)
      → IsAnswering s
      → IsAnswering (legacy_status_timeout second lower fold upper is_digit to_int now key s)
  unfolding legacy_status_timeout finish_legacy_status
  timeout-IsAnswering now key s v =
      let f = finish-IsAnswering now key none false s v in
      record {
        timed = λ k. ground (
          arith,
          lookup-erase key k s.pending,
          contains-discard key k (discard key s.timeouts),
          contains-discard key k s.timeouts,
          v.timed k,
        );
        known = f.known;
        counted = f.counted;
        kept = f.kept;
        apart = f.apart;
        alone = f.alone;
      }

  -- A notice that the handler returns on keeps the books right: every waiting key and no other has a
  -- timer, and every Deferred has its answer or waits under one key, never both.
  pub reply-IsAnswering :
      (prefix message : Text) (now : ℕ) (s s' : Status)
      → handle_legacy_status_reply second lower fold upper is_digit to_int prefix message now s
        ≡ some s'
      → IsAnswering s
      → IsAnswering s'
  unfolding handle_legacy_status_reply
  reply-IsAnswering prefix message now s s' h v = elim (Option-cases (process_hostmask prefix)) [
    | inl e ↦ unchanged (rw (e, handle_legacy_status_reply) at h)
    | inr (w, e) ↦ elim (Bool-cases (fold w.nick == codes "nickserv")) [
      | inl services ↦
          by_words (split_words [] message) (rw (e, handle_legacy_status_reply, services) at h)
      | inr other ↦ unchanged (rw (e, handle_legacy_status_reply, other) at h)
    ]
  ]
    where
      unchanged : some s ≡ some s' → IsAnswering s'
      unchanged h = let same : s ≡ s' = ground arith in rw (← same) v

      finished :
          (nick : Text) (level : Option ℕ)
          → take_level second lower fold upper is_digit to_int now nick level s ≡ some s'
          → IsAnswering s'
      finished nick none h = absurd (cc)
      finished nick (some level) h =
          let same : finish_legacy_status second lower fold upper is_digit to_int now
                (irc_casefold lower nick) (if leb 3 level then some nick else none) true s
              ≡ s' =
            cc in
          rw (← same) (finish-IsAnswering now _ _ true s v)

      by_words :
          (words : List Text)
          → take_words second lower fold upper is_digit to_int now words s ≡ some s'
          → IsAnswering s'
      by_words [] h = unchanged h
      by_words (a ∷ []) h = unchanged h
      by_words (a ∷ b ∷ []) h = unchanged h
      by_words (word ∷ nick ∷ level ∷ rest) h =
          elim (Bool-cases (not (upper word == codes "STATUS"))) [
            | inl e ↦ unchanged (rw e at h)
            | inr e ↦ elim (Bool-cases (not (is_digit level))) [
              | inl d ↦ unchanged (rw (e, d) at h)
              | inr d ↦ finished nick (to_int level) (rw (e, d) at h)
            ]
          ]

  abandon_all-IsAnswering :
      (now : ℕ) (keys : List Text) (s : Status)
      → IsAnswering s
      → IsAnswering (abandon_all second lower fold upper is_digit to_int now keys s)
  unfolding abandon_all
  abandon_all-IsAnswering now [] s v = v
  abandon_all-IsAnswering now (key ∷ keys) s v =
      abandon_all-IsAnswering now keys _ (finish-IsAnswering now key none false s v)

  abandon_all-created :
      (now : ℕ) (keys : List Text) (s : Status)
      → (abandon_all second lower fold upper is_digit to_int now keys s).created ≡ s.created
  unfolding abandon_all finish_legacy_status
  abandon_all-created now [] s = refl
  abandon_all-created now (key ∷ keys) s = abandon_all-created now keys _

  waiting-abandon_all :
      (now : ℕ) (keys : List Text) (s : Status) (k : Text) (d : ℕ)
      → contains d (waiting k (abandon_all second lower fold upper is_digit to_int now keys s))
        ≡ (not (contains k keys) && contains d (waiting k s))
  unfolding abandon_all contains
  waiting-abandon_all now [] s k d = refl
  waiting-abandon_all now (key ∷ keys) s k d = ground (
    arith,
    waiting-abandon_all now keys
        (finish_legacy_status second lower fold upper is_digit to_int now key none false s) k d,
    waiting-finish now key none false s k d,
  )

  waits_under_key :
      (k : Text) (d : ℕ) (p : Dict Text (List ℕ))
      → contains d (list_or_none (lookup k p)) ≡ true
      → contains k (keys_of p) ≡ true
  unfolding contains lookup
  waits_under_key k d [] h = absurd (cc)
  waits_under_key k d ((j, ds) ∷ p) h = ground (arith, waits_under_key k d p)

  -- Where every waiting key has its timer and every Deferred its answer or a place to wait, this stays
  -- so when the connection goes, and every Deferred that was ever handed out then has its answer.
  pub abandon-answered :
      (now : ℕ) (s : Status)
      → IsAnswering s
      → IsAnswering (abandon_legacy_status second lower fold upper is_digit to_int now s)
        × ((d : ℕ)
            → d < s.created
            → answered d (abandon_legacy_status second lower fold upper is_digit to_int now s).fired
              ≡ true)
  unfolding abandon_legacy_status
  abandon-answered now s v =
      let w = abandon_all-IsAnswering now (keys_of s.pending) s v in
      (
        w,
        λ d h. elim (w.kept d (rw (abandon_all-created now (keys_of s.pending) s) h)) [
          | inl a ↦ a
          | inr (k, a) ↦ absurd (
              ground (
                arith,
                waiting-abandon_all now (keys_of s.pending) s k d,
                waits_under_key k d s.pending,
              ))
        ],
      )
