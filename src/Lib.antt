-- ===== src/Lib.antt =====
-- Verification library of the vSphere cloud provider.
--
-- The program finds machines, zones and nodes for Kubernetes in one or more vCenters. Its parts, and
-- the modules that model them:
--   Search       the producer and the pool of workers that the functions of
--                pkg/common/connectionmanager/search.go and zones.go start for every search: the
--                state is the place of each goroutine, the channel, the flag, the global error and
--                the information found; `step` is the next step of one goroutine, and a run is a
--                list of the goroutines that take a step, so a theorem for all lists is one for all
--                interleavings.
--   Credentials  pkg/common/credentialmanager/credentialmanager.go and types.go: GetCredential is
--                `get_credential`, parseConfig is `parse_config`.
--   Connections  pkg/common/vclib/connection.go and Connect, ConnectByInstance and the attempts of
--                pkg/common/connectionmanager: `connect_vim`, `connect_by_instance`, `connect`,
--                `connect_attempts`. It asks Credentials for new credentials after a failed login.
--                NewConnectionManager and Verify are in Connections.Start.
--   Inventory    the lookups of pkg/common/vclib/datacenter.go.
--   Discovery    WhichVCandDCByNodeID, which connects to every vCenter (Connections), lists its
--                datacenters (Inventory) and hands them to a Search. ListAllVCandDCPairs of
--                pkg/common/connectionmanager/list.go is in Discovery.Pairs.
--   Zones        pkg/common/connectionmanager/zones.go: LookupZoneByMoref is
--                `lookup_zone_by_moref`, WhichVCandDCByZone is `which_vc_and_dc_by_zone`, which runs
--                a Search over clusters and then one over hosts.
--   Uuid         pkg/cloudprovider/vsphere/util.go.
--   Nodes        pkg/cloudprovider/vsphere/nodemanager.go, types.go, instances.go and zones.go, and
--                ListNodes of server/server.go: the maps of nodes are association lists, and an
--                operation returns its answer and the manager after it. `Nodes.Finding` fills its
--                search with Discovery.
--   Config       pkg/common/config/config.go and types.go: validateConfig is `validate_config`,
--                FromEnv is `from_env` in Config.Environment.
--   Disks        the first class disks of pkg/common/vclib (fcd.go, datastore.go, storagepod.go,
--                datacenter.go), in `Disks` and `Disks.Pods`; `Disks.Datacenters` lists and looks up
--                the disks of a datacenter, `Disks.Store` creates and deletes them, and
--                `Disks.Search` is WhichVCandDCByFCDId, which runs a Search with
--                DoesFirstClassDiskExist as its probe.
--   Machines     pkg/common/vclib/virtualmachine.go, utils.go and volumeoptions.go: AttachDisk is
--                `attach_disk` in Machines.Attached, DetachDisk `detach_disk` in Machines.Attach.
--   Controller   pkg/csi/service/fcd/controller.go: CreateVolume is `create_volume`, DeleteVolume
--                `delete_volume`, the two publish calls are in Controller.Publishing. It uses Zones,
--                Disks and Machines; Controller.Requests gives it the lookup of zones,
--                Controller.Versions is the check of versions in Init, and Controller.Listing
--                is getAllFCDs of vsphere_helper.go, the disks that ListVolumes pages.
--   Mounts       pkg/csi/service/node.go: the calls are `node_stage_volume`, `node_unstage_volume`,
--                `node_publish_volume` and `node_unpublish_volume`.
--   Volumes      ListVolumes of pkg/csi/service/fcd/controller.go: `list_volumes`.
--   Common       numbers, lists, Go strings as lists of bytes, Go maps, errors and panics.
-- The child modules named Tests hold runs at concrete inputs.
--
-- The pool has 8 workers and the channel 80 places, as in the source. A search needs no fuel: a
-- schedule is any list. The loop of three connection attempts recurs on the number of attempts left.
--
-- Parameters stand for code that is not here: the vSphere API (`Vim`, `Api`, `ZoneApi`), the lister
-- of secrets and the file system (`World`), and what the node manager calls of Kubernetes and of
-- the standard library (`Calls`, `HostApi`), the digits of numbers (`Digits`), the environment of
-- the process (`Environment`), the object manager of disks and the property collector (`Vslm`,
-- `Store`), the devices of machines (`Hosts`), the sorting of a slice (`SortSlice`, `SortPairs`),
-- and the operating system of a node (`System`). Where calls change a vCenter or a node, its state
-- is explicit: a call takes it and returns it. The API answers the same while a search runs;
-- answers of logins depend on the time. Maps are ranged over in the order of their lists, and the
-- theorems are for every list. Texts are ASCII where case or white space matters. A goroutine of a
-- search whose probe would panic goes on to the next job, where the process would end.
--
-- Not modelled: logging and metrics, contexts and deadlines, the locks (what they guard is one step
-- of the model), the gRPC server beyond ListNodes, the command line, generated code, the start of
-- the CSI services, and the calls of pkg/csi whose answers are constant.
pub mod Common
pub mod Search
pub mod Credentials
pub mod Connections
pub mod Inventory
pub mod Discovery
pub mod Zones
pub mod Uuid
pub mod Nodes
pub mod Config
pub mod Controller
pub mod Disks
pub mod Machines
pub mod Mounts
pub mod Volumes
