-- ===== src/Lifecycle/Attach.antt =====
-- attach of src/SSD1315.cpp: it refuses and changes nothing, or binds a usable configuration.
use mathlib.Core.Path.{subst}
use ssd.Common.{
  ℕ, zero, suc, ◌-◌, ◌<◌, refl, get_or, has_bit_zero, Bool, true, false, Option, none, some, ◌*◌,
  ◌≤◌, ◌≡◌, ◌⊎◌, arith, replicate, length-replicate, inl, inr, ◌&&◌, sym, Bool-cases, Option-cases,
  ap, ◌∙◌,
}
use ssd.Status.{DriverState, PanelPowerState, is_ok}
use ssd.Config.{Config}
use ssd.Config.Validate.{validate_config as validate_config_internal}
use ssd.Config.Validate.Laws.{IsUsable, Accepted, validate_config_iff, validate_config-Accepted}
use ssd.Driver.{Driver, reset_dirty, operation_active, is_flushing, reset_runtime_state}
use ssd.Frame.Bounds.{HasShape}
use ssd.Frame.Pixel.{bytes_of}
use ssd.Frame.Dirty.{mark_all_dirty}
use ssd.Frame.Dirty.All.{mark_all_dirty-HasWindows, mark_all_dirty_window}
use ssd.Frame.Dirty.Cover.{HasWindows, Covers}
use ssd.Frame.Geometry.{get_buffer_size}
use ssd.Lifecycle.{byte_ranges_overlap, bind, attach, aliases_own_storage, address_of}
use ssd.Lifecycle.Overlap.{InRange, byte_ranges_overlap_iff}
use ssd.Traffic.Quiet.{mark_all_dirty-OnlyDirty}

-- What a fresh binding of a configuration is.
pub record Bound (c : Config) (d e : Driver) : Type 0 where
  pub shape : HasShape e
  pub panel :
      (e.config.width ≡ c.width)
      × (e.config.height ≡ c.height)
      × (e.config.page_buffer_pages ≡ c.page_buffer_pages)
  pub blank : bytes_of e ≡ replicate (c.width * c.page_buffer_pages) 0
  pub uninitialized : (e.binding.initialized ≡ false) × (e.health.driver_state ≡ DriverState.uninit)
  pub power : e.panel.panel_power_state ≡ PanelPowerState.unknown
  pub threshold : 1 ≤ e.config.offline_threshold
  pub idle :
      (operation_active e ≡ false) × (e.operation.result_ready ≡ false) × (is_flushing e ≡ false)
  pub silent : e.bus ≡ d.bus
  pub first_window : e.paging.current_buffer_page ≡ 0
  pub windows : HasWindows e.config.width e.dirty
  pub due : (p x : ℕ) → p < c.page_buffer_pages → x < c.width → Covers e.dirty p x

zeros_low : (n i : ℕ) → get_or (replicate n 0) i 0 ≡ i - i
zeros_low zero i = omega arith
zeros_low (suc n) zero = omega arith
zeros_low (suc n) (suc i) = let e = zeros_low n i in omega (arith, e)

reset_dirty-HasWindows : (width : ℕ) → 1 ≤ width → HasWindows width reset_dirty
reset_dirty-HasWindows width h = record {
  mask = omega arith;
  lengths = (refl, refl, refl);
  on_panel = λ p k. let e = zeros_low 8 p in omega (arith, e);
  ordered = λ p k marked. absurd (ground (arith, has_bit_zero p k));
}

-- The dirty marks of a fresh binding.
record Due (c : Config) (e : Driver) : Type 0 where
  pub windows : HasWindows e.config.width e.dirty
  pub due : (p x : ℕ) → p < c.page_buffer_pages → x < c.width → Covers e.dirty p x

windows_kept :
    (d : Driver)
    → d.binding.total_pages ≤ 8
    → 1 ≤ d.config.width
    → HasWindows d.config.width d.dirty
    → HasWindows (mark_all_dirty d).config.width (mark_all_dirty d).dirty
windows_kept d few one w =
    let same = mark_all_dirty-OnlyDirty d in
    subst (λ (k : Config). HasWindows k.width (mark_all_dirty d).dirty) (sym same.config)
      (mark_all_dirty-HasWindows d few one w)

bind-Due :
    (d : Driver) (c : Config) (address : ℕ) (owns : Bool)
    → IsUsable c
    → Due c (bind d c address owns (c.width * c.page_buffer_pages))
unfolding bind reset_runtime_state
bind-Due d c address owns u =
    let w = reset_dirty-HasWindows c.width (u.panel.width_in).0 in
    record {
      windows = windows_kept _ (ground (arith, u.panel.height_in)) (u.panel.width_in).0 w;
      due = λ p x k on.
          mark_all_dirty_window _ p x refl (u.memory.pages_in).0
            (ground (arith, u.memory.pages_in, u.panel.height_in))
            (ground (arith, u.panel.height_in)) refl w k on;
    }

bind-Bound :
    (d : Driver) (c : Config) (address : ℕ) (owns : Bool)
    → IsUsable c
    → Bound c d (bind d c address owns (c.width * c.page_buffer_pages))
unfolding bind reset_runtime_state
bind-Bound d c address owns u = grind (
  arith,
  mark_all_dirty-OnlyDirty,
  length-replicate {A = ℕ} (c.width * c.page_buffer_pages) 0,
  u.panel,
  u.memory,
  bind-Due d c address owns u,
)

-- A driver that a configuration may be bound to: the bus is free, no result waits, and the caller's
-- buffer shares no byte with one that the driver owns.
pub record Unbound (d : Driver) (c : Config) : Type 0 where
  pub inactive : operation_active d ≡ false
  pub read : d.operation.result_ready ≡ false
  pub flushed : is_flushing d ≡ false
  pub apart :
      (a b x : ℕ)
      → c.external_buffer ≡ some a
      → address_of d.binding.buffer ≡ some b
      → d.binding.owns_buffer ≡ true
      → ¬ (InRange a (c.width * c.page_buffer_pages) x × InRange b (get_buffer_size d) x)

-- What an attempt to attach comes to.
abbrev pub Attached : (ℕ → Option ℕ) → Driver → Config → Type 0
Attached allocate d c =
    let (st, e) = attach allocate d c in
    (is_ok st ≡ false) × (e ≡ d) ⊎ (is_ok st ≡ true) × IsUsable c × Bound c d e × Unbound d c

validate_accepted :
    (c : Config)
    → is_ok (validate_config_internal c).0 ≡ true
    → IsUsable c × (validate_config_internal c ≡ Accepted c)
validate_accepted c h = let u = (validate_config_iff c).0 h in (u, validate_config-Accepted c u)

-- Refused with nothing changed, or bound to the block at `address`.
abbrev Outcome : (ℕ → Option ℕ) → Driver → Config → ℕ → Bool → Type 0
Outcome allocate d c address owns =
    let (st, e) = attach allocate d c in
    (is_ok st ≡ false) × (e ≡ d)
    ⊎ (is_ok st ≡ true)
      × (e ≡ bind d c address owns (validate_config_internal c).1)
      × (operation_active d ≡ false)
      × (d.operation.result_ready ≡ false)
      × (is_flushing d ≡ false)
      × (aliases_own_storage d c (validate_config_internal c).1 ≡ false)

attach-own :
    (allocate : ℕ → Option ℕ) (d : Driver) (c : Config) (address : ℕ)
    → c.external_buffer ≡ none
    → allocate (validate_config_internal c).1 ≡ some address
    → Outcome allocate d c address true
unfolding attach
attach-own allocate d c address h a = ground arith

attach-external :
    (allocate : ℕ → Option ℕ) (d : Driver) (c : Config) (address : ℕ)
    → c.external_buffer ≡ some address
    → Outcome allocate d c address false
unfolding attach
attach-external allocate d c address h = ground arith

attach-none :
    (allocate : ℕ → Option ℕ) (d : Driver) (c : Config)
    → (is_ok (validate_config_internal c).0 ≡ false)
      ⊎ (c.external_buffer ≡ none) × (allocate (validate_config_internal c).1 ≡ none)
    → (is_ok (attach allocate d c).0 ≡ false) × ((attach allocate d c).1 ≡ d)
unfolding attach
attach-none allocate d c h = ground arith

apart_lem :
    (d : Driver) (c : Config) (size : ℕ)
    → aliases_own_storage d c size ≡ false
    → (a b x : ℕ) → c.external_buffer ≡ some a
    → address_of d.binding.buffer ≡ some b
    → d.binding.owns_buffer ≡ true
    → ¬ (InRange a size x × InRange b (get_buffer_size d) x)
unfolding aliases_own_storage
apart_lem d c size h a b x ea eb o (p, q) =
    let t = (byte_ranges_overlap_iff a size b (get_buffer_size d)).1 (x, p, q) in
    let k : d.binding.owns_buffer && byte_ranges_overlap (some a) size (some b) (get_buffer_size d)
        ≡ false =
      rw (← ea, ← eb) h in
    absurd (ground (arith, k, o, t))

Outcome-Attached :
    (allocate : ℕ → Option ℕ) (d : Driver) (c : Config) (address : ℕ) (owns : Bool)
    → is_ok (validate_config_internal c).0 ≡ true
    → Outcome allocate d c address owns
    → Attached allocate d c
Outcome-Attached allocate d c address owns ok (inl refused) = inl refused
Outcome-Attached allocate d c address owns ok (inr (st, e, a, r, f, k)) =
    let (u, v) = validate_accepted c ok in
    let e' : (attach allocate d c).1 ≡ bind d c address owns (c.width * c.page_buffer_pages) =
      e ∙ ap (λ r. bind d c address owns r.1) v in
    inr (
      st,
      u,
      rw e' (bind-Bound d c address owns u),
      record {
        inactive = a;
        read = r;
        flushed = f;
        apart =
            apart_lem d c (c.width * c.page_buffer_pages)
              (sym (ap (λ s. aliases_own_storage d c s.1) v) ∙ k);
      },
    )

-- Attaching either fails and leaves the driver as it was, or it binds the configuration: then the
-- configuration is usable, the driver had no operation active, no result waiting and no flush
-- running, and owned no byte of the caller's buffer. The driver is then well-shaped, idle, not
-- initialized, with unknown panel power, a blank framebuffer that is due in every page that the RAM
-- holds, and nothing was sent.
pub attach_lem : (allocate : ℕ → Option ℕ) (d : Driver) (c : Config) → Attached allocate d c
attach_lem allocate d c = elim (Bool-cases (is_ok (validate_config_internal c).0)) [
  | inr bad ↦ inl (attach-none allocate d c (inl bad))
  | inl ok ↦ elim (Option-cases c.external_buffer) [
    | inr (address, h) ↦
        Outcome-Attached allocate d c address false ok (attach-external allocate d c address h)
    | inl h ↦ elim (Option-cases (allocate (validate_config_internal c).1)) [
      | inr (address, a) ↦
          Outcome-Attached allocate d c address true ok (attach-own allocate d c address h a)
      | inl a ↦ inl (attach-none allocate d c (inr (h, a)))
    ]
  ]
]
