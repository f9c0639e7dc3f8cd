-- ===== src/Scheduler/Place/Choice.antt =====
-- Which node ScheduleWithStorage chooses among those that can take a service: no conflict before the
-- preferred node, and that before the most free vCPUs.
use firework.Base.{
  ◌≢◌, ℕ, String, ◌+◌, ◌-◌, ◌*◌, ◌%◌, ◌≡◌, ◌⊎◌, Bool, true, false, not, ◌==◌, Option,
}
use firework.Base.Int64.{sub64, lt64, word, half_word}
use firework.Config.{ServiceConfig}
use firework.Scheduler.{Node, StorageReservations, has_conflict}
use firework.Scheduler.Storage.{Fit}
use firework.Scheduler.Place.{Progress, try_node}

module _ (service : ServiceConfig) (preferred : String) (st : Progress) where
  abbrev pub conflicts : Node → Bool
  conflicts n = has_conflict service st.groups n.instance_id

  abbrev pub is_preferred : Node → Bool
  is_preferred n = n.instance_id == preferred

  -- The free vCPUs, a signed number.
  abbrev pub free : Node → ℕ
  free n = sub64 n.capacity_vcpus (st.used_vcpu n.instance_id)

  -- The node `n` is no worse a choice than `m`.
  pub record IsNoWorse (n m : Node) : Type 0 where
    pub fewer_conflicts : (conflicts n ≡ false) ⊎ (conflicts m ≡ true)
    pub keeps_place :
        (conflicts n ≢ conflicts m) ⊎ ((is_preferred m ≡ false) ⊎ (is_preferred n ≡ true))
    pub most_free :
        (conflicts n ≢ conflicts m)
        ⊎ ((is_preferred n ≢ is_preferred m) ⊎ (lt64 (free n) (free m) ≡ false))

  -- The order of the candidates as an order of numbers: the smaller, the better.
  digit : Bool → ℕ
  digit true = 1
  digit false = 0

  rank : Node → ℕ
  unfolding digit
  rank n =
      (2 * digit (conflicts n) + digit (not (is_preferred n))) * word
      + (word - 1 - (free n + half_word) % word)

  module _ (reservations : StorageReservations) (bound : String) where
    abbrev pub tried : Node → Option Fit
    tried n = try_node reservations service bound st n
