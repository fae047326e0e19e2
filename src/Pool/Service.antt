-- ===== src/Pool/Service.antt =====
-- What pool.rs promises to its callers, with no CIDs, counters, processes or directories: VMs that
-- are spare, and VMs that are leased under their names.
use containerd_cloudhypervis.Common.{
  ℕ, ◌<◌, ◌≡◌, ◌≢◌, List, [], ◌∷◌, Option, none, some, Text, length, All, ite, Text-discrete,
}
use containerd_cloudhypervis.Pool.State.{PoolVm}

pub record Service : Type 0 where
  pub size : ℕ
  pub spare : List PoolVm
  pub leased : Text → Option PoolVm

unfoldable pub update : (Text → Option PoolVm) → Text → Option PoolVm → Text → Option PoolVm
update f id v k = ite (Text-discrete id k) v (f k)

-- What a caller can see of one call.
pub data Event : Type 0 where
  leases : PoolVm → Event
  refuses : Event
  takes_back : Text → Event
  stocks : PoolVm → Event
  joins : PoolVm → Event
  rests : Event

-- A VM is leased only while nobody holds its name: the spare one that was stocked last, or a new
-- one where none is spare. A lease is refused only where none is spare. A VM is stocked only below
-- the size, under a name that no other VM has. A VM that a caller has made itself joins as leased,
-- also under such a name.
pub data Serves (s : Service) : Event → Service → Type 0 where
  from_stock :
      (vm : PoolVm) (rest : List PoolVm)
      → s.spare ≡ vm ∷ rest
      → s.leased vm.vm_id ≡ none
      → Serves s
          (leases vm)
          (record s { spare = rest; leased = update s.leased vm.vm_id (some vm) })
  made_new :
      (vm : PoolVm)
      → s.spare ≡ []
      → s.leased vm.vm_id ≡ none
      → Serves s (leases vm) (record s { leased = update s.leased vm.vm_id (some vm) })
  refused : s.spare ≡ [] → Serves s refuses s
  returned : (id : Text) → Serves s (takes_back id) (record s { leased = update s.leased id none })
  stocked :
      (vm : PoolVm)
      → length s.spare < s.size
      → s.leased vm.vm_id ≡ none
      → All (λ (v : PoolVm). v.vm_id ≢ vm.vm_id) s.spare
      → Serves s (stocks vm) (record s { spare = vm ∷ s.spare })
  joined :
      (vm : PoolVm)
      → s.leased vm.vm_id ≡ none
      → All (λ (v : PoolVm). v.vm_id ≢ vm.vm_id) s.spare
      → Serves s (joins vm) (record s { leased = update s.leased vm.vm_id (some vm) })
  rested : Serves s rests s

pub data Serving : Service → List Event → Service → Type 0 where
  stays : {s : Service} → Serving s [] s
  goes_on :
      {s t u : Service} {e : Event} {es : List Event}
      → Serves s e t
      → Serving t es u
      → Serving s (e ∷ es) u
