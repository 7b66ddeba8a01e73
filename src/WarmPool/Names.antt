-- ===== src/WarmPool/Names.antt =====
-- Names of warm containers: the stable name of a session, and the `-draining-<ts>` name that a
-- condemned container gets (warm_pool.py).
use aw_app_agents_platform_r.Prelude.{
  ℕ, ◌≡◌, refl, Bool, true, Option, none, some, [], ◌∷◌, ◌++◌, arith, ℤ, pos, All,
}
use aw_app_agents_platform_r.Prelude.Texts.{
  Text, codes, after_last, contains, after_last-append, contains-append,
}
use aw_app_agents_platform_r.Prelude.Decimal.{IsDigit, str, str-IsDigit, int, int-str}

unfoldable pub warm_container_name : Text → Text → Text
warm_container_name agent_id session_id =
    codes "aw-warm-" ++ (agent_id ++ (codes "-" ++ session_id))

abbrev pub draining_mark : Text
draining_mark = codes "-draining-"

-- f"{name}-draining-{int(time.time())}"
unfoldable pub draining_name : Text → ℕ → Text
draining_name name ts = name ++ (draining_mark ++ str ts)

-- `"-draining-" in name`
unfoldable pub is_draining : Text → Bool
is_draining name = contains draining_mark name

-- `int(name.rsplit("-draining-", 1)[1])`; `none` where it raises.
unfoldable pub drain_started : Text → Option ℤ
drain_started name = elim (after_last draining_mark name) [ none ↦ none | some ts ↦ int ts ]

after_last-digits : (s : Text) → All IsDigit s → after_last draining_mark s ≡ none
unfolding after_last
after_last-digits [] h = refl
after_last-digits (c ∷ s) h = rw (after_last-digits s h.1) (ground arith)

after_last-mark :
    (s : Text) → All IsDigit s → after_last draining_mark (draining_mark ++ s) ≡ some s
unfolding after_last
after_last-mark [] h = refl
after_last-mark (c ∷ s) h = rw (after_last-digits (c ∷ s) h) (ground arith)

contains-mark : (s : Text) → contains draining_mark (draining_mark ++ s) ≡ true
unfolding contains
contains-mark s = refl

pub is_draining-draining_name : (name : Text) (ts : ℕ) → is_draining (draining_name name ts) ≡ true
unfolding is_draining draining_name
is_draining-draining_name name ts =
    contains-append draining_mark name (draining_mark ++ str ts) (contains-mark (str ts))

-- The name that condemning gives a container carries the time, whatever the old name is: a sweep
-- sees it as draining and reads the second at which it was condemned.
pub drain_started-draining_name :
    (name : Text) (ts : ℕ)
    → (is_draining (draining_name name ts) ≡ true)
      × (drain_started (draining_name name ts) ≡ some (pos ts))
unfolding drain_started draining_name
drain_started-draining_name name ts = (
  is_draining-draining_name name ts,
  rw
      (
        after_last-append draining_mark name (draining_mark ++ str ts) (str ts)
            (after_last-mark (str ts) (str-IsDigit ts)),
        drain_started,
      )
      (int-str ts),
)
