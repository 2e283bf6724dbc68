-- ===== src/Lfs.antt =====
-- omnetpp/dserver/lfs: the local file system of a data server, which maps the blocks of a file to
-- those of the disk by a list of extents.
pub mod Extents
pub mod Ext3
pub mod Module
