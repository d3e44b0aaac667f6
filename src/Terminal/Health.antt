-- ===== src/Terminal/Health.antt =====
-- The health monitor: `peripheral_health_model`.
use coin_line_emu.Base.{
  ℕ, ◌+◌, ◌<◌, ◌≡◌, refl, ap, ◌∙◌, Bool, true, false, not, List, [], ◌∷◌, arith, length, leb,
  if◌then◌else◌, u32,
}

-- `shared_owner`
pub data Owner : Type 0 where
  owner_none owner_coin owner_card owner_data_jack owner_disconnect_supervision : Owner

pub record Health : Type 0 where
  pub tel_miss : ℕ
  pub card_blocked : ℕ
  pub coin_fault_consecutive : ℕ
  pub coin_recover_consecutive : ℕ
  pub card_recover_consecutive : ℕ
  pub alarm_tel_not_responding : Bool
  pub alarm_coin_hw_fault : Bool
  pub alarm_card_reader_blocked : Bool
  pub owner : Owner

-- The member initialisers.
abbrev pub new : Health
new = record {
  tel_miss = 0;
  card_blocked = 0;
  coin_fault_consecutive = 0;
  coin_recover_consecutive = 0;
  card_recover_consecutive = 0;
  alarm_tel_not_responding = false;
  alarm_coin_hw_fault = false;
  alarm_card_reader_blocked = false;
  owner = owner_none;
}

unfoldable pub on_telephony_alive_result : Bool → Health → Health
on_telephony_alive_result true h = record h { tel_miss = 0; alarm_tel_not_responding = false }
on_telephony_alive_result false h =
    let misses = u32 (h.tel_miss + 1) in
    record h {
      tel_miss = misses;
      alarm_tel_not_responding = if leb 3 misses then true else h.alarm_tel_not_responding;
    }

unfoldable pub on_coin_alive_result : Bool → Health → Health
on_coin_alive_result ok h = record h { alarm_coin_hw_fault = not ok }

unfoldable pub on_card_sensor_idle : Bool → Health → Health
on_card_sensor_idle true h = record h { card_blocked = 0; alarm_card_reader_blocked = false }
on_card_sensor_idle false h =
    let blocked = u32 (h.card_blocked + 1) in
    record h {
      card_blocked = blocked;
      alarm_card_reader_blocked = if leb 3 blocked then true else h.alarm_card_reader_blocked;
    }

unfoldable pub on_coin_fault_sample : Bool → Health → Health
on_coin_fault_sample true h =
    let faults = u32 (h.coin_fault_consecutive + 1) in
    record h {
      coin_fault_consecutive = faults;
      coin_recover_consecutive = 0;
      alarm_coin_hw_fault = if leb 2 faults then true else h.alarm_coin_hw_fault;
    }
on_coin_fault_sample false h =
    let recovered = u32 (h.coin_recover_consecutive + 1) in
    record h {
      coin_fault_consecutive = 0;
      coin_recover_consecutive = recovered;
      alarm_coin_hw_fault = if leb 2 recovered then false else h.alarm_coin_hw_fault;
    }

unfoldable pub on_card_blocked_sample : Bool → Health → Health
on_card_blocked_sample true h =
    let blocked = u32 (h.card_blocked + 1) in
    record h {
      card_blocked = blocked;
      card_recover_consecutive = 0;
      alarm_card_reader_blocked = if leb 3 blocked then true else h.alarm_card_reader_blocked;
    }
on_card_blocked_sample false h =
    let recovered = u32 (h.card_recover_consecutive + 1) in
    if leb 2 recovered
    then record h {
      card_recover_consecutive = recovered;
      card_blocked = 0;
      alarm_card_reader_blocked = false;
    }
    else record h { card_recover_consecutive = recovered }

-- `m_owner == owner`
abbrev pub same_owner : Owner → Owner → Bool
same_owner owner_none owner_none = true
same_owner owner_coin owner_coin = true
same_owner owner_card owner_card = true
same_owner owner_data_jack owner_data_jack = true
same_owner owner_disconnect_supervision owner_disconnect_supervision = true
same_owner _ _ = false

unfoldable pub request_owner : Owner → Health → Health
request_owner o h = if same_owner h.owner owner_none then record h { owner = o } else h

unfoldable pub force_disconnect_supervision_priority : Health → Health
force_disconnect_supervision_priority h = record h { owner = owner_disconnect_supervision }

unfoldable pub release_owner : Owner → Health → Health
release_owner o h = if same_owner h.owner o then record h { owner = owner_none } else h

-- The results since the last success, the newest last.
abbrev pub misses_from : ℕ → List Bool → ℕ
misses_from n [] = n
misses_from n (true ∷ results) = misses_from 0 results
misses_from n (false ∷ results) = misses_from (n + 1) results

unfoldable pub results_in : List Bool → Health → Health
results_in [] h = h
results_in (ok ∷ results) h = results_in results (on_telephony_alive_result ok h)

results_from :
    (results : List Bool) (h : Health)
    → h.tel_miss + length results < 4294967296
    → h.alarm_tel_not_responding ≡ leb 3 h.tel_miss
    → (results_in results h).alarm_tel_not_responding ≡ leb 3 (misses_from h.tel_miss results)
unfolding results_in on_telephony_alive_result
results_from [] h few flag = flag
results_from (true ∷ results) h few flag =
    results_from results (on_telephony_alive_result true h) (omega arith) refl
results_from (false ∷ results) h few flag =
    let next = on_telephony_alive_result false h in
    let count : next.tel_miss ≡ h.tel_miss + 1 = omega arith in
    results_from results next (omega arith) (ground (arith, flag, few))
    ∙ ap (λ (n : ℕ). leb 3 (misses_from n results)) count

-- After fewer than 2 ^ 32 results the alarm is on exactly if at least three have failed since the
-- last success.
pub on_telephony_alive_result-misses :
    (results : List Bool)
    → length results < 4294967296
    → (results_in results new).alarm_tel_not_responding ≡ leb 3 (misses_from 0 results)
on_telephony_alive_result-misses results few = results_from results new (omega arith) refl
