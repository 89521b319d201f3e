-- ===== src/State/Modes/Ranks.antt =====
-- util/state.py: the operators after `_modechange`.
use py_burly_bot.Common.{
  ℕ, ◌≡◌, refl, Bool, true, false, List, [], ◌∷◌, Option, some, Text, text_eq, ◌==◌, arith, lookup,
  contains, if◌then◌else◌, ◌&&◌, ◌||◌, not, any, is_substring, contains-add, contains-discard,
}
use py_burly_bot.State.Prefixes.{PrefixMap}
use py_burly_bot.State.Model.{Channel, Network, ok}
use py_burly_bot.State.Modes.{
  Mode, reset_mode_is, add_mode, remove_mode, add_modes, remove_modes, change_modes, modechange,
  put_channel,
}

-- The mode names `x` for a rank whose letters are `letters`.
abbrev pub names_for : Text → Text → Mode → Bool
names_for letters x (mode, arg) = is_substring mode letters && arg == x

ops-add_mode :
    (pm : PrefixMap) (nick : Option Text) (now : ℕ) (m : Mode) (c : Channel) (x : Text)
    → contains x (add_mode pm nick now m c).ops ≡ (names_for pm.opcmds x m || contains x c.ops)
unfolding add_mode
ops-add_mode pm nick now (mode, arg) c x = ground (arith, contains-add arg x c.ops)

ops-remove_mode :
    (pm : PrefixMap) (m : Mode) (c : Channel) (x : Text)
    → contains x (remove_mode pm m c).ops ≡ (not (names_for pm.opcmds x m) && contains x c.ops)
unfolding remove_mode
ops-remove_mode pm (mode, arg) c x = ground (arith, contains-discard arg x c.ops)

ops-add_modes :
    (pm : PrefixMap) (nick : Option Text) (now : ℕ) (ms : List Mode) (c : Channel) (x : Text)
    → contains x (add_modes pm nick now ms c).ops
      ≡ (any (names_for pm.opcmds x) ms || contains x c.ops)
unfolding add_modes any
ops-add_modes pm nick now [] c x = refl
ops-add_modes pm nick now (m ∷ ms) c x = ground (
  arith,
  ops-add_modes pm nick now ms (add_mode pm nick now m c) x,
  ops-add_mode pm nick now m c x,
)

ops-remove_modes :
    (pm : PrefixMap) (ms : List Mode) (c : Channel) (x : Text)
    → contains x (remove_modes pm ms c).ops
      ≡ (not (any (names_for pm.opcmds x) ms) && contains x c.ops)
unfolding remove_modes any
ops-remove_modes pm [] c x = refl
ops-remove_modes pm (m ∷ ms) c x =
    ground (arith, ops-remove_modes pm ms (remove_mode pm m c) x, ops-remove_mode pm m c x)

ops-reset : (b : Bool) (c : Channel) → (if b then reset_mode_is c else c).ops ≡ c.ops
unfolding reset_mode_is
ops-reset true c = refl
ops-reset false c = refl

-- A mode change of a tracked channel, once the prefix map is there, returns; on that channel a nick
-- is an operator afterwards exactly when no removed operator mode names it, and an added one does
-- or it was an operator before. The channel's reset does not touch the operators.
pub ops-modechange :
    (channel : Text) (nick : Option Text) (now : ℕ) (added removed : List Mode) (reset : Bool)
    (n : Network) (pm : PrefixMap) (c : Channel)
    → n.prefixmap ≡ some pm
    → lookup channel n.channels ≡ some c
    → (c' : Channel) × (modechange channel nick now added removed reset n
        ≡ ok (put_channel channel n c'))
      × ((x : Text)
          → contains x c'.ops ≡ (
              not (any (names_for pm.opcmds x) removed)
              && (any (names_for pm.opcmds x) added || contains x c.ops)))
unfolding modechange change_modes
ops-modechange channel nick now added removed reset n pm c p e =
    let c₀ = if reset then reset_mode_is c else c in
    (
      remove_modes pm removed (add_modes pm nick now added c₀),
      rw (e, modechange, p, change_modes) refl,
      λ x. ground (
        arith,
        ops-remove_modes pm removed (add_modes pm nick now added c₀) x,
        ops-add_modes pm nick now added c₀ x,
        ops-reset reset c,
      ),
    )
