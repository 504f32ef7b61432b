-- ===== src/Service/Shadowed.antt =====
-- The selector that cmd/service/router.go registers twice.
use Prim.Native.String.{len, slice}
use eth_tracker.Prelude.{◌≡◌, refl, ltb, false, nat_eq, string_eq}
use eth_tracker.Eth.{Eth}
use eth_tracker.Cache.{Cache}
use eth_tracker.Router.{Callback, InputDataPayload, process_input_data}
use eth_tracker.Handler.Account.{handle_custodial_registration_input_data}
use eth_tracker.Service.Routes.{bootstrap_event_router}

-- A reverted call of at least eight characters, with the selector 4420e486, goes to the handler of
-- custodial registrations, which was registered for it last.
pub process_input_data-register :
    {S : Type 0} (eth : Eth) (cache : Cache S) (c : Callback S) (idp : InputDataPayload)
    → ltb (len idp.input_data) 8 ≡ false
    → slice idp.input_data 0 8 ≡ "4420e486"
    → process_input_data (bootstrap_event_router eth cache c) idp
      ≡ handle_custodial_registration_input_data eth idp c
unfolding process_input_data bootstrap_event_router
process_input_data-register eth cache c idp long selected = rw (long, selected) refl
