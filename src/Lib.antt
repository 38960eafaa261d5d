-- ===== src/Lib.antt =====
-- Boardswarm, a server that gives remote access to development boards, and what is proved of it.
--
-- Providers find actuators (power, relays), consoles and volumes (flash storage) and register them
-- with the server. The server keeps one registry for each kind of item and tells subscribers of every
-- change. Configured devices follow the registries: each of their items takes the id of a registered
-- item that its configuration matches, and a mode is switched by running its actuators in order.
--
-- Prelude holds what the other modules share: Boolean tests, lists over native numbers, equality as an
-- interface, Rust's Result (Outcome), machine words. Status is tonic's status. Collections holds
-- Rust's HashMap (an association list) and BTreeMap (one in ascending order of its keys).
--
-- Registry models boardswarm/src/registry.rs. Registry.Properties has Properties and Item, with
-- Properties::matches and the flag that its closure sets; Registry.Store has Registry with new, add,
-- remove, lookup, ids, find and monitor. The lock is held for a whole operation, so an operation is one
-- step; `sent` is all that went to the broadcast channel, and a subscription is a position in it.
-- Registry.History is any sequence of calls.
--
-- Server models the part of boardswarm/src/main.rs that owns the four registries: register_*,
-- unregister_*, get_*, find_actuator, to_item_list and item_list_for of Server, by the kind of item.
--
-- Udev models boardswarm/src/udev.rs: DeviceRegistrations (new, pre_register, remove, unregister),
-- RegistrationGuard and PreRegistration (register_batch and its Drop). A device that appears is
-- pre-registered under its sequence number; what a provider prepares for it is registered later, in
-- one batch, unless the device is gone or new by then. Udev.History is any sequence of events and of
-- batches, early or late; the closure given to register_batch is the list of the guard's calls.
--
-- Fastboot models boardswarm/src/fastboot.rs: Fastboot.Data has FastbootChunk and FastbootData, the
-- buffer of a sparse image, Fastboot.Target has FastbootVolumeTarget (write and flush), and
-- Fastboot.Encode the requests of do_download_raw and do_download_aimg. The vector of chunks stands
-- newest first. `as u32`, u32 sums and usize differences keep their wrap-around; other sums of
-- usize are taken to stay below 2^64. The write loop is on fuel of twice the data's length and two:
-- each round takes a byte or empties the buffer. The android_sparse_image crate is the record
-- SparseFormat, of its headers and their lengths. A command to the task that owns the device is
-- recorded, and the channel closes after a given number of commands.
--
-- Fastboot.Volume has FastbootVolume::open, the probe of the device's task and the list of targets of
-- setup_volume. Udev.Interfaces has UsbInterface::from_udev, on ASCII bytes, and Udev.Stream has
-- DeviceStream, with all that the monitor will give as a list.
--
-- VolumeIo models the volume I/O of boardswarm/src/main.rs: VolumeIo.Replies has VolumeError, the
-- trait VolumeTarget with its default methods, and VolumeIoReplies; VolumeIo.Serve has volume_io and the
-- task that serves its requests. A completion is what it is given in the end, or that it is dropped;
-- the client takes a given number of replies. Server.Stream has list, monitor and item_properties,
-- Server.Handlers has volume_commit, volume_erase, volume_info, device_change_mode and
-- actuator_change_mode, whose `unwrap`s are panics.
--
-- Device models boardswarm/src/config_device.rs and the device part of boardswarm/src/config.rs:
-- Device.Items has DeviceItem with add_item_with and change_with, Device.Monitor has Device with
-- from_config and monitor_items (its reading of the contents, its loop and its restart after a lag),
-- Device.Modes has set_mode. The handles are a type, Console::configure, Actuator::set_mode and the
-- sleep are functions on the world outside; set_mode runs alone.
--
-- Device.Watching has device_info of boardswarm/src/main.rs with From<&dyn Device> and
-- DeviceMonitor::wait. A receiver is the number of values that it has seen; the channel's answers are
-- a parameter with the law IsBroadcast. The first view is read before the receiver is made, at a time of
-- its own. wait is on fuel of the values that were not seen and one: each round that lags passes over
-- at least one value.
--
-- Server.Consoles has the console handlers of boardswarm/src/main.rs over the trait Console, whose
-- implementation is a parameter; Serial models boardswarm/src/serial/mod.rs, a serial port as a
-- console. A receiver is a position in what was broadcast, and those more than 64 values behind are
-- given an error. Server.Input is about any console, Serial.Readers about a serial one.
--
-- Rockusb models boardswarm/src/rockusb.rs: Rockusb.Device has the errors and rockusb_task, Rockusb.Targets
-- has Rockusb and its two kinds of targets, as VolumeIo serves them. The rockusb crate, and whether a
-- command reaches the task, are the record RockusbCrate.
--
-- Dfu models boardswarm/src/dfu.rs: Dfu.Device has setup_device, over what nusb tells of a device, and Dfu.Targets
-- has Dfu and DfuTarget. The task's commands are its branches; whether an interface opens, and whether a
-- download still takes data, are functions.
--
-- Remote models boardswarm/src/boardswarm_provider/mod.rs for the items of one type: Remote.Provider has
-- add_item, remove_item and monitor_items with the drain of the registrations at its end.
--
-- Remote.Device models boardswarm/src/boardswarm_provider/device.rs, a device of the other server. The provider
-- changes its ids and tells it in one step; the device's task takes that in at a time of its own, in
-- any order with the information that comes from there; the task ends when that information fails or
-- ends. Remote.Mappings, Remote.Shown, Remote.Ending and Remote.Mirror are about it.
--
-- Cli models boardswarm-cli/src/utils.rs: Cli.BatchWriter has BatchWriter with its polls, over a
-- VolumeIoRW whose polls are a parameter. The loop of poll_flush_data is on fuel of the batch's length
-- and one: each round writes a byte or ends it.
--
-- Client models boardswarm-client/src/client.rs: Client.Requests has VolumeIo (what each request_*
-- sends, Outstanding, monitor_task, the futures) and Boardswarm::volume_io; Client.ReadWrite and
-- Client.Polls have VolumeIoRW with its polls. The channels of tokio are the record Channels, whose
-- answers are arbitrary. A poll's loop is on fuel of three or four rounds: it drops what an earlier poll
-- began, reserves, sends and waits. A reservation that has failed stays in the state, and the next poll of
-- it panics, as the future of an async function does when it is polled again: histories of polls end
-- there. Client.Settling joins the client to the server's volume I/O,
-- over a gRPC stream that is a parameter; Client.Batches joins it to BatchWriter.
--
-- Client.Device models boardswarm-client/src/device.rs: a device that is opened by its name, what it
-- shows, and the waits for a volume or a console. The task that follows the server stores an update and
-- then tells it, the waiting task looks and then sleeps: each of these is a step, and the steps of
-- the two come in any order.
--
-- Not modelled: login_info, the providers of other hardware (hifive, eswin, mediatek, gpio,
-- pdudaemon), the udev event loops of the providers, the rest of the client library and of the
-- command line; USB, udev, TLS and the network, which the sources only call; logging.
pub mod Prelude
pub mod Status
pub mod Collections
pub mod Registry
pub mod Fastboot
pub mod Server
pub mod Udev
pub mod Device
pub mod Dfu
pub mod VolumeIo
pub mod Cli
pub mod Remote
pub mod Client
pub mod Serial
pub mod Rockusb
