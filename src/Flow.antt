-- ===== src/Flow.antt =====
-- Credit-based flow control, driver/flow_control.c: the credit operations and their configuration.
pub mod Credits
pub mod Stream
pub mod Window
pub mod Phases
pub mod Pairing
pub mod Sustained
use dmaplane_master.Base.{
  ◌%◌, ℕ, suc, ◌+◌, ◌*◌, ◌/◌, ◌-◌, Bool, true, false, ◌||◌, not, ◌==◌, ltb, leb, if◌then◌else◌,
  add32, add64, u32_mod, ℤ, pos, negsuc, inc, dec, Status, ok, err, einval,
}

-- `dev->flow`, with the two counters of `dev->stats` that it moves
pub record Flow : Type 0 where
  pub max_credits : ℕ
  pub high_watermark : ℕ
  pub low_watermark : ℕ
  pub credits : ℤ
  pub paused : Bool
  pub configured : Bool
  pub high_watermark_events : ℕ
  pub low_watermark_events : ℕ

-- `struct dmaplane_flow_params`
pub record FlowParams : Type 0 where
  pub max_credits : ℕ
  pub high_watermark : ℕ
  pub low_watermark : ℕ

abbrev pub max_flow_credits : ℕ
max_flow_credits = 128

-- The four tests of `dmaplane_flow_configure`
abbrev pub params_refused : FlowParams → Bool
params_refused p =
    (p.max_credits == 0 || ltb max_flow_credits p.max_credits)
    || ltb p.max_credits p.high_watermark
    || leb p.high_watermark p.low_watermark
    || p.low_watermark == 0

-- `dmaplane_flow_configure`
unfoldable pub configure : FlowParams → Flow → Status × Flow
configure p f = if params_refused p then (err einval, f) else (
  ok,
  record f {
    max_credits = p.max_credits;
    high_watermark = p.high_watermark;
    low_watermark = p.low_watermark;
    credits = pos p.max_credits;
    paused = false;
    configured = true;
  },
)

-- `(int)max_credits - credits`, compared with a watermark: is the number in flight at most n, is it
-- at least n?
unfoldable pub in_flight_at_most : ℕ → ℤ → ℕ → Bool
in_flight_at_most m (pos c) n = leb m (c + n)
in_flight_at_most m (negsuc c) n = leb (m + suc c) n

unfoldable pub in_flight_at_least : ℕ → ℤ → ℕ → Bool
in_flight_at_least m (pos c) n = leb (c + n) m
in_flight_at_least m (negsuc c) n = leb n (m + suc c)

-- `credits > 0`
unfoldable pub is_positive : ℤ → Bool
is_positive (pos n) = ltb 0 n
is_positive (negsuc n) = false

-- `dmaplane_flow_can_send`: its answer, and the state it leaves
unfoldable pub can_send : Flow → Bool × Flow
can_send f =
    if not f.configured
    then (true, f)
    else if f.paused
    then (if in_flight_at_most f.max_credits f.credits f.low_watermark
        then (
          true,
          record f { paused = false; low_watermark_events = add64 f.low_watermark_events 1 },
        )
        else (false, f))
    else if in_flight_at_least f.max_credits f.credits f.high_watermark
    then (
      false,
      record f { paused = true; high_watermark_events = add64 f.high_watermark_events 1 },
    )
    else (is_positive f.credits, f)

-- `dmaplane_flow_on_send`
unfoldable pub on_send : Flow → Flow
on_send f = record f { credits = dec f.credits }

-- `dmaplane_flow_on_completion`
unfoldable pub on_completion : Flow → Flow
on_completion f = record f { credits = inc f.credits }

-- `if (x < least) x = least;`
abbrev at_least : ℕ → ℕ → ℕ
at_least least x = if ltb x least then least else x

-- The window that `sustained_auto_configure` derives from a queue depth
abbrev pub auto_credits : ℕ → ℕ
auto_credits depth =
    let doubled = (depth * 2) % u32_mod in
    at_least 2 (if ltb max_flow_credits doubled then max_flow_credits else doubled)

abbrev pub auto_high : ℕ → ℕ
auto_high m = at_least 1 (m * 3 / 4)

abbrev pub auto_low : ℕ → ℕ
auto_low m = let low = at_least 1 (m / 4) in if leb (auto_high m) low then auto_high m - 1 else low

-- `sustained_auto_configure`
unfoldable pub auto_configure : ℕ → Flow → Flow
auto_configure depth f = record f {
  max_credits = auto_credits depth;
  high_watermark = auto_high (auto_credits depth);
  low_watermark = auto_low (auto_credits depth);
  credits = pos (auto_credits depth);
  paused = false;
  configured = true;
}

-- The reset of the credits at the start of a run
abbrev pub refill : Flow → Flow
refill f = record f { credits = pos f.max_credits; paused = false }
