-- ===== src/Routing/Gate.antt =====
-- Proofs about the signal gate of internal/routing/signal_gate.go.
use polytoken_quota.Prelude.{
  ◌≡◌, refl, true, false, Option, none, some, String, ltb_ℤ, arith, inl, inr, Bool-cases,
  Option-cases, ◌↔◌,
}
use polytoken_quota.Clock.{Time, sub}
use polytoken_quota.Floats.{Float, leb_f}
use polytoken_quota.Quota.{QuotaSnapshot}
use polytoken_quota.Routing.{
  SignalGateInput, freshness, is_degraded, compute_signal, is_invalid_threshold, not_gated,
  compare_signal, gate_snapshot, signal_gate_verdict,
}

module _ {F : Type 0} ⦃fl : Float F⦄ (format : F → String) where
  -- The evidence that holds a gate: the gate is enabled, its threshold is finite and not
  -- positive, and a fresh snapshot that is not degraded has a signal at or below the threshold.
  pub record HoldsGate (i : SignalGateInput F) (now : Time) : Type 0 where
    pub enabled : i.enabled ≡ true
    pub valid : is_invalid_threshold i.threshold ≡ false
    pub snap : QuotaSnapshot F
    pub observed : i.snapshot ≡ some snap
    pub fresh : ltb_ℤ (freshness i.freshness_ttl) (sub now snap.checked_at) ≡ false
    pub complete : is_degraded snap.status ≡ false
    pub signal : F
    pub computed : compute_signal snap now ≡ some signal
    pub low : leb_f signal i.threshold ≡ true

  compare_signal-gated :
      (i : SignalGateInput F) (o : Option F)
      → (compare_signal format i o).gated ≡ true
      → (s : F) × (o ≡ some s) × (leb_f s i.threshold ≡ true)
  unfolding compare_signal not_gated
  compare_signal-gated i none h = absurd (ground arith)
  compare_signal-gated i (some s) h = elim (Bool-cases (leb_f s i.threshold)) [
    | inl e ↦ (s, refl, e)
    | inr e ↦ absurd (ground arith)
  ]

  compare_signal-of :
      (i : SignalGateInput F) (o : Option F) (s : F)
      → o ≡ some s
      → leb_f s i.threshold ≡ true
      → (compare_signal format i o).gated ≡ true
  unfolding compare_signal
  compare_signal-of i o s e h = rw (e, h)

  holds-of :
      (i : SignalGateInput F) (now : Time)
      → HoldsGate i now
      → (signal_gate_verdict format i now).gated ≡ true
  unfolding signal_gate_verdict gate_snapshot
  holds-of i now g =
      rw (g.enabled, g.valid, g.observed, g.fresh, g.complete)
        (compare_signal-of i (compute_signal g.snap now) g.signal g.computed g.low)

  to-holds :
      (i : SignalGateInput F) (now : Time)
      → (signal_gate_verdict format i now).gated ≡ true
      → HoldsGate i now
  unfolding signal_gate_verdict gate_snapshot not_gated
  to-holds i now h = elim (Bool-cases i.enabled) [
    | inr e ↦ absurd (ground arith)
    | inl e ↦ elim (Bool-cases (is_invalid_threshold i.threshold)) [
      | inl v ↦ absurd (ground arith)
      | inr v ↦ elim (Option-cases i.snapshot) [
        | inl q ↦ absurd (ground arith)
        | inr (snap, q) ↦
            elim (Bool-cases (ltb_ℤ (freshness i.freshness_ttl) (sub now snap.checked_at))) [
              | inl f ↦ absurd (ground arith)
              | inr f ↦ elim (Bool-cases (is_degraded snap.status)) [
                | inl d ↦ absurd (ground arith)
                | inr d ↦
                    let k : (compare_signal format i (compute_signal snap now)).gated ≡ true =
                      ground arith in
                    let (s, c, l) = compare_signal-gated i (compute_signal snap now) k in
                    record {
                      enabled = e;
                      valid = v;
                      snap = snap;
                      observed = q;
                      fresh = f;
                      complete = d;
                      signal = s;
                      computed = c;
                      low = l;
                    }
              ]
            ]
      ]
    ]
  ]

  -- The gate holds exactly where there is evidence for it: no snapshot, a stale or degraded one,
  -- one with no signal, a disabled gate or an invalid threshold never holds it.
  pub signal_gate_verdict_iff :
      (i : SignalGateInput F) (now : Time)
      → ((signal_gate_verdict format i now).gated ≡ true) ↔ HoldsGate i now
  signal_gate_verdict_iff i now = (to-holds i now, holds-of i now)
