-- ===== src/User.antt =====
-- src/user: the tasks that run the trains.
pub mod Track
pub mod Navigation
pub mod Clockserver
pub mod Algorithms
pub mod Nameserver
pub mod Uartserver
pub mod Neutron
pub mod Virtual
pub mod Trainserver
pub mod Dispatchserver
pub mod Shell
pub mod Straightpath
