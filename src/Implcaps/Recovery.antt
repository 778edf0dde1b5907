-- ===== src/Implcaps/Recovery.antt =====
-- What the capabilities rely on in the monitors.
use zda.Base.{ℕ, ◌≡◌, ◌≢◌, none}
use zda.Monitor.{PollingConfig, ReportingConfig}
use zda.Implcaps.{ZdaInterface}

module _ {V : Type 0} (zi : ZdaInterface V) where
  open zi use {Net, Failure, MonitorSection, Am}

  -- The monitor that a new process makes for the section of one.
  abbrev pub restarted : Am → Am
  restarted m = zi.monitor (zi.section m)

  -- A monitor whose section Load accepts.
  abbrev pub IsLoadable : Am → Type 0
  IsLoadable m = (net : Net) → (zi.load (restarted m) net).0 ≡ none

  -- A monitor that was attached without an error can be loaded by a new process, and one that
  -- never was cannot.
  pub record Recovers : Type 0 where
    pub attached :
        (e c a dt : ℕ) (rc : ReportingConfig) (pc : PollingConfig) (m m' : Am) (net net' : Net)
        → zi.attach e c a dt rc pc m net ≡ (none, m', net')
        → IsLoadable m'
    pub never_attached : (net : Net) → (zi.load (zi.monitor zi.no_section) net).0 ≢ none
    pub kept : (s : MonitorSection) → zi.section (zi.monitor s) ≡ s
