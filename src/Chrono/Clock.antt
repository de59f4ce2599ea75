-- ===== src/Chrono/Clock.antt =====
-- src/clock.cpp and src/clock.hpp: the clock that can be set and scaled. The type of the real time factor
-- and `scale`, the cast of a duration times the factor, are parameters; the reading of the base clock
-- is an argument.
use nuclear.Base.{
  ℕ, ◌+◌, ◌%◌, ◌≡◌, ◌<◌, refl, ap, sym, subst, ◌∙◌, arith, ◌==◌, if◌then◌else◌, true, false,
}
use nuclear.Base.Int.{ℤ, pos, ◌+ℤ◌, ◌-ℤ◌, eq_of_parts, +ℤ_parts, -ℤ_parts, int_laws}

-- `ClockData`.
pub record ClockData (R : Type 0) : Type 0 where
  pub base_from : ℤ
  pub epoch : ℤ
  pub rtf : R

-- `data` and `active`.
pub record Clock (R : Type 0) : Type 0 where
  pub data_at : ℕ → ClockData R
  pub active : ℕ

abbrev pub ring_size : ℕ
ring_size = 3

same : (n : ℕ) → (n == n) ≡ true
same n = ground arith

module _ {R : Type 0} where
  -- The write of the next slot, which then becomes the active one.
  unfoldable pub publish : ClockData R → Clock R → Clock R
  publish next c = record {
    data_at = λ i. if i == (c.active + 1) % ring_size then next else c.data_at i;
    active = (c.active + 1) % ring_size;
  }

  unfoldable pub set_clock : ℤ → ℤ → R → Clock R → Clock R
  set_clock base time rtf c = publish (record { epoch = time; base_from = base; rtf = rtf }) c

  -- `rtf`.
  unfoldable pub rtf_of : Clock R → R
  rtf_of c = (c.data_at c.active).rtf

  publish-active :
      (next : ClockData R) (c : Clock R) → (publish next c).data_at (publish next c).active ≡ next
  unfolding publish
  publish-active next c = rw (same ((c.active + 1) % ring_size)) refl

module _ {R : Type 0} (scale : ℤ → R → ℤ) where
  -- The time that a copy of the data stands for.
  unfoldable pub reading : ℤ → ClockData R → ℤ
  reading base current = current.epoch +ℤ scale (base -ℤ current.base_from) current.rtf

  unfoldable pub now : ℤ → Clock R → ℤ
  now base c = reading base (c.data_at c.active)

  unfoldable pub adjust_clock : ℤ → ℤ → R → Clock R → Clock R
  adjust_clock base adjustment rtf c =
      let current = c.data_at c.active in
      publish
        (record {
          epoch = current.epoch +ℤ adjustment +ℤ scale (base -ℤ current.base_from) current.rtf;
          base_from = base;
          rtf = rtf;
        })
        c

  module _ (scale_zero : (r : R) → scale (pos 0) r ≡ pos 0) where
    reading_base : (d : ClockData R) → reading d.base_from d ≡ d.epoch
    unfolding reading
    reading_base d =
        let zero_gap : d.base_from -ℤ d.base_from ≡ pos 0 =
          eq_of_parts _ _ (omega (arith, -ℤ_parts d.base_from d.base_from)) in
        rw (zero_gap, scale_zero d.rtf) (eq_of_parts _ _ (omega (arith, +ℤ_parts d.epoch (pos 0))))

    -- A clock that was set shows the time it was set to, at the reading of the base clock at which it
    -- was set, and has the factor it was given.
    pub now-set_clock :
        (base time : ℤ) (rtf : R) (c : Clock R)
        → (now base (set_clock base time rtf c) ≡ time) × (rtf_of (set_clock base time rtf c) ≡ rtf)
    unfolding now set_clock rtf_of
    now-set_clock base time rtf c =
        let new : ClockData R = record { epoch = time; base_from = base; rtf = rtf } in
        (
          ap (reading base) (publish-active new c) ∙ reading_base new,
          ap (λ d. d.rtf) (publish-active new c),
        )

    -- An adjustment shifts the time by just the adjustment, whatever the old and the new factor.
    pub now-adjust_clock :
        (base adjustment : ℤ) (rtf : R) (c : Clock R)
        → (now base (adjust_clock base adjustment rtf c) ≡ now base c +ℤ adjustment)
          × (rtf_of (adjust_clock base adjustment rtf c) ≡ rtf)
    unfolding now adjust_clock rtf_of reading
    now-adjust_clock base time rtf c =
        let current = c.data_at c.active in
        let passed = scale (base -ℤ current.base_from) current.rtf in
        let new : ClockData R = record {
          epoch = current.epoch +ℤ time +ℤ passed;
          base_from = base;
          rtf = rtf;
        } in
        (
          ap (reading base) (publish-active new c)
              ∙ reading_base new
              ∙ eq_of_parts (current.epoch +ℤ time +ℤ passed) (current.epoch +ℤ passed +ℤ time)
                  (omega int_laws),
          ap (λ d. d.rtf) (publish-active new c),
        )

-- A call that changes the clock.
pub data Update (R : Type 0) : Type 0 where
  set : ℤ → ℤ → R → Update R
  adjust : ℤ → ℤ → R → Update R

module _ {R : Type 0} (scale : ℤ → R → ℤ) where
  unfoldable pub update : Update R → Clock R → Clock R
  update (set base time rtf) c = set_clock base time rtf c
  update (adjust base adjustment rtf) c = adjust_clock scale base adjustment rtf c

  update_shape : (u : Update R) (c : Clock R) → (next : ClockData R) × (update u c ≡ publish next c)
  unfolding update set_clock adjust_clock
  update_shape (set base time rtf) c = (_, refl)
  update_shape (adjust base adjustment rtf) c = (_, refl)

  publish_old :
      (first second : ClockData R) (c : Clock R)
      → c.active < ring_size
      → (publish second (publish first c)).data_at c.active ≡ c.data_at c.active
  unfolding publish
  publish_old first second c h =
      let other : (c.active == (c.active + 1) % ring_size) ≡ false = ground arith in
      let third : (c.active == ((c.active + 1) % ring_size + 1) % ring_size) ≡ false =
        ground arith in
      rw (third, other) refl

  -- A reader that has loaded the active index may read its slot while two updates are made: they
  -- write the two other slots.
  pub update-update_slot :
      (first second : Update R) (c : Clock R)
      → c.active < ring_size
      → (update second (update first c)).data_at c.active ≡ c.data_at c.active
  update-update_slot first second c h =
      let (a, e) = update_shape first c in
      subst (λ m. (update second m).data_at c.active ≡ c.data_at c.active) (sym e)
        (let (b, f) = update_shape second (publish a c) in rw f (publish_old a b c h))
