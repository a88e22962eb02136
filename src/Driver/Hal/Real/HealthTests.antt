-- ===== src/Driver/Hal/Real/HealthTests.antt =====
-- The status of an instance whose controller has gone bus-off.
use dspic33ak_can_cmsis_driv.Prelude.{ℕ, ◌+◌, ◌^◌, ◌≡◌, true}
use dspic33ak_can_cmsis_driv.Canfd.Chip.{Reg}
use dspic33ak_can_cmsis_driv.Driver.Context.{Context}
use dspic33ak_can_cmsis_driv.Driver.Status.{can_get_status}
use dspic33ak_can_cmsis_driv.Driver.Hal.Real.{Below, running, canfd}
use dspic33ak_can_cmsis_driv.Driver.Hal.Real.FifoTests.{source, below, ctx, two_waiting}
use dspic33ak_can_cmsis_driv.Driver.Hal.Real.Health.{status_of, driver_reports_status}

-- TXBO and TXBP are set, and the counters are 1 and 3.
abbrev trec : ℕ
trec = 2 ^ 21 + 2 ^ 20 + 2 ^ 8 + 3

abbrev read_trec : Reg → ℕ
read_trec Reg.trec = trec
read_trec _ = 0

abbrev bus_off : Below
bus_off = record below { chip = record source { read = λ i r n. (read_trec r, n) } }

abbrev on : Context
on = record ctx { powered = true }

driver_reports_status_example :
    can_get_status (canfd bus_off) (record { ctx = on; hal = running two_waiting })
    ≡ (status_of trec, record { ctx = on; hal = running two_waiting })
driver_reports_status_example = driver_reports_status bus_off on two_waiting
