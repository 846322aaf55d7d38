-- ===== src/Trust/Constraints.antt =====
-- About the constraints of an authorized key whose options lib/trust accepted.
use mygosh.Base.{
  ◌≤◌, ◌≡◌, ◌⊎◌, inl, inr, refl, subst, true, false, not, Bool-cases, Option, Option-cases, List,
  [], ◌∷◌,
}
use mygosh.Base.{length, ltb, arith}
use mygosh.Base.Result.{ok, guard-ok, bind-ok, ok_injective}
use mygosh.Text.{Text, text_of, trim_space, contains, is_empty, member, same}
use mygosh.Trust.{
  AuthorizedKeyOption, AuthorizedKeyConstraints, command_option, apply_option, option_loop,
  parse_constraints,
}

-- A forced command, where there is one, is not blank, has no NUL and is not too long.
pub record IsSound (c : AuthorizedKeyConstraints) : Type 0 where
  pub forced : (c.forced_command ≡ []) ⊎ (is_empty (trim_space c.forced_command) ≡ false)
  pub no_nul : contains 0 c.forced_command ≡ false
  pub short : length c.forced_command ≤ 24576
  pub restricted : c.restricted ≡ true → c.no_pty ≡ true

module _ (unquote : Text → Option Text) where
  command_option-IsSound :
      (o : AuthorizedKeyOption) (c d : AuthorizedKeyConstraints)
      → IsSound c
      → command_option unquote o c ≡ ok d
      → IsSound d
  unfolding command_option
  command_option-IsSound o c d s h =
      let (e1, h1) = guard-ok (not o.has_value) _ _ d h in
      elim (Option-cases (unquote o.value)) [
        | inl e ↦ ground (arith, rw e at h1)
        | inr (command, e) ↦
            let (e2, h2) = guard-ok (is_empty (trim_space command)) _ _ d (rw e at h1) in
            let (e3, h3) = guard-ok (contains 0 command) _ _ d h2 in
            let (e4, h4) = guard-ok (ltb 24576 (length command)) _ _ d h3 in
            subst IsSound (ok_injective (record c { forced_command = command }) d h4) (record {
              forced = inr e2;
              no_nul = e3;
              short = ground (arith, e4);
              restricted = s.restricted;
            })
      ]

  apply_option-IsSound :
      (o : AuthorizedKeyOption) (c d : AuthorizedKeyConstraints)
      → IsSound c
      → apply_option unquote o c ≡ ok d
      → IsSound d
  unfolding apply_option
  apply_option-IsSound o c d s h = elim (Bool-cases (same o.name (text_of "command"))) [
    | inl e ↦ command_option-IsSound o c d s (rw e at h)
    | inr e ↦ elim (Bool-cases (same o.name (text_of "no-pty"))) [
      | inl f ↦
          let (g, k) = guard-ok o.has_value _ _ d (rw (e, f) at h) in
          subst IsSound (ok_injective (record c { no_pty = true }) d k) (record {
            forced = s.forced;
            no_nul = s.no_nul;
            short = s.short;
            restricted = λ _. refl;
          })
      | inr f ↦ elim (Bool-cases (same o.name (text_of "restrict"))) [
        | inl g ↦
            let (i, k) = guard-ok o.has_value _ _ d (rw (e, f, g) at h) in
            subst IsSound (ok_injective (record c { restricted = true; no_pty = true }) d k)
              (record {
                forced = s.forced;
                no_nul = s.no_nul;
                short = s.short;
                restricted = λ _. refl;
              })
        | inr g ↦ ground (arith, rw (e, f, g) at h)
      ]
    ]
  ]

  option_loop-IsSound :
      (seen : List Text) (c d : AuthorizedKeyConstraints) (os : List AuthorizedKeyOption)
      → IsSound c
      → option_loop unquote seen c os ≡ ok d
      → IsSound d
  unfolding option_loop
  option_loop-IsSound seen c d [] s h = subst IsSound (ok_injective c d h) s
  option_loop-IsSound seen c d (o ∷ os) s h =
      let (e, h1) = guard-ok (member o.name seen) _ _ d h in
      let (x, applied, rest) = bind-ok (apply_option unquote o c) _ d h1 in
      option_loop-IsSound (o.name ∷ seen) x d os (apply_option-IsSound o c x s applied) rest

  -- The constraints that lib/trust accepts: a forced command is not blank, has no NUL byte and has
  -- at most 24 KiB, and a restricted key has no PTY.
  pub parse_constraints-IsSound :
      (os : List AuthorizedKeyOption) (c : AuthorizedKeyConstraints)
      → parse_constraints unquote os ≡ ok c
      → IsSound c
  unfolding parse_constraints contains
  parse_constraints-IsSound os c h =
      option_loop-IsSound [] (record { forced_command = []; no_pty = false; restricted = false }) c
        os
        (record {
          forced = inl refl;
          no_nul = refl;
          short = omega arith;
          restricted = λ e. ground (arith, e);
        })
        h
