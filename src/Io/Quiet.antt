-- ===== src/Io/Quiet.antt =====
-- Calls that change nothing but the cursor of a file: what `seek`, `open_file` and `read` do on
-- every outcome.
use udpcp.Base.{◌≡◌, ◌≢◌, refl, ◌∙◌, ◌⊎◌, inl, inr, List, [], ◌∷◌, Option, none, some}
use udpcp.Error.{IoError}
use udpcp.Io.{World, Outcome, returned, raised, syscall}

-- Nothing outside has changed, and no failure was added.
pub record Quiet (w v : World) : Type 0 where
  pub files : v.files ≡ w.files
  pub sent : v.sent ≡ w.sent
  pub events : v.events ≡ w.events
  pub inbox : v.inbox ≡ w.inbox
  pub clock : v.clock ≡ w.clock
  pub nonblocking : v.nonblocking ≡ w.nonblocking
  pub faults : w.faults ≡ [] → v.faults ≡ []

pub Quiet-refl : (w : World) → Quiet w w
Quiet-refl w = record {
  files = refl;
  sent = refl;
  events = refl;
  inbox = refl;
  clock = refl;
  nonblocking = refl;
  faults = λ h. h;
}

pub Quiet-trans : {u v w : World} → Quiet u v → Quiet v w → Quiet u w
Quiet-trans p q = record {
  files = q.files ∙ p.files;
  sent = q.sent ∙ p.sent;
  events = q.events ∙ p.events;
  inbox = q.inbox ∙ p.inbox;
  clock = q.clock ∙ p.clock;
  nonblocking = q.nonblocking ∙ p.nonblocking;
  faults = λ h. q.faults (p.faults h);
}

module _ {ℓ} {A : Type ℓ} where
  -- A call failed, or it returned and its effect took place in a quiet world.
  abbrev pub SyscallCases : (World → A × World) → World → Outcome A × World → Type ℓ
  SyscallCases effect w r =
      ((e : IoError) × (v : World) × (r ≡ (raised e, v)) × Quiet w v × (w.faults ≢ []))
      ⊎ ((v : World) × (r ≡ (returned (effect v).0, (effect v).1))
          × Quiet w v
          × (v.reads ≡ w.reads))

  syscall-cases_at :
      (effect : World → A × World) (w : World) (fs : List (Option IoError))
      → w.faults ≡ fs
      → SyscallCases effect w (syscall effect w)
  unfolding syscall
  syscall-cases_at effect w [] e = inr (w, rw e, Quiet-refl w, refl)
  syscall-cases_at effect w (none ∷ r) e = inr (
    record w { faults = r },
    rw e,
    record {
      files = refl;
      sent = refl;
      events = refl;
      inbox = refl;
      clock = refl;
      nonblocking = refl;
      faults = λ h. cc;
    },
    refl,
  )
  syscall-cases_at effect w (some x ∷ r) e = inl (
    x,
    record w { faults = r },
    rw e,
    record {
      files = refl;
      sent = refl;
      events = refl;
      inbox = refl;
      clock = refl;
      nonblocking = refl;
      faults = λ h. cc;
    },
    λ h. cc,
  )

  pub syscall-cases :
      (effect : World → A × World) (w : World) → SyscallCases effect w (syscall effect w)
  syscall-cases effect w = syscall-cases_at effect w w.faults refl
